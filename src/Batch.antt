-- ===== src/Batch.antt =====
-- batch.go: the pending writes of a batch, and the methods that add to them. `none` is a panic; the
-- methods hold the batch's own lock from end to end, so each is one step.
pub mod Pending
pub mod Lookup
pub mod Methods
pub mod Commit
pub mod Written
pub mod View
pub mod IndexLoop
pub mod Sound
pub mod Committed
pub mod Replies
pub mod Atomic
pub mod AllOrNothing
pub mod Ended
use distributed_system_proje.Prelude.{
  ℕ, ◌+◌, ◌≡◌, Bytes, Bool, true, false, ◌&&◌, ◌||◌, Option, none, some, List, [], ◌∷◌, ◌++◌, ◌==◌,
  if◌then◌else◌, length, get_elem?, set, bytes_equal, ◌>>=◌,
}
use distributed_system_proje.Prelude.Int.{ℤ, pos, negsuc, zero_ℤ, is_zero_ℤ, ltb_ℤ, ◌+ℤ◌, ◌-ℤ◌}
use distributed_system_proje.Errors.{
  Error, err_key_is_empty, err_key_not_found, err_read_only_batch, err_db_closed,
}
use distributed_system_proje.Record.{
  LogRecord, log_record_normal, log_record_deleted, is_expired, decode_log_record,
}
use distributed_system_proje.Store.{Env, Db, Batch, Reply, ok, err}

-- The entries of a hash in `pendingWritesMap`
unfoldable pub map_entries : ℕ → List (ℕ × List ℕ) → List ℕ
map_entries h [] = []
map_entries h ((k, es) ∷ m) = if k == h then es else map_entries h m

-- `m[h] = append(m[h], e)`
unfoldable pub map_append : ℕ → ℕ → List (ℕ × List ℕ) → List (ℕ × List ℕ)
map_append h e [] = (h, e ∷ []) ∷ []
map_append h e ((k, es) ∷ m) =
    if k == h then (k, es ++ (e ∷ [])) ∷ m else (k, es) ∷ map_append h e m

-- The first entry whose record has the key. An index out of range, which `Pending.IsValid` rules
-- out, panics.
unfoldable pub find_entry : List LogRecord → Bytes → List ℕ → Option (Option ℕ)
find_entry rs key [] = some none
find_entry rs key (e ∷ es) =
    let rest = find_entry rs key es in
    elim (get_elem? rs e) [
      | none ↦ none
      | some r ↦ if bytes_equal r.key key then some (some e) else rest
    ]

-- A record of the batch is changed in place.
abbrev pub set_pending : Batch → ℕ → LogRecord → Batch
set_pending b i r = record b { pending_writes = set b.pending_writes i r }

module _ (env : Env) where
  -- `lookupPendingWrites`, with the index of the record in place of its pointer
  unfoldable pub lookup_pending_writes : Batch → Bytes → Option (Option ℕ)
  unfolding find_entry map_entries
  lookup_pending_writes b key =
      if length b.pending_writes_map == 0
      then some none
      else find_entry b.pending_writes key (map_entries (env.mem_hash key) b.pending_writes_map)

  -- `appendPendingWrites`
  unfoldable pub append_pending_writes : Batch → Bytes → LogRecord → Batch
  unfolding map_append
  append_pending_writes b key r = record b {
    pending_writes = b.pending_writes ++ (r ∷ []);
    pending_writes_map =
        map_append (env.mem_hash key) (length b.pending_writes) b.pending_writes_map;
  }

  -- The guards of the methods that read, and of those that write, in their order
  abbrev pub read_guard : Bytes → Db env → Option Error
  read_guard key db =
      if length key == 0
      then some err_key_is_empty
      else if db.closed
      then some err_db_closed
      else none

  abbrev pub write_guard : Bytes → Batch → Db env → Option Error
  write_guard key b db =
      if length key == 0
      then some err_key_is_empty
      else if db.closed
      then some err_db_closed
      else if b.read_only
      then some err_read_only_batch
      else none

  -- The body that Put and PutWithTTL share: `r` holds the four fields that they assign. A record of
  -- the batch keeps its batch id, and one of the pool may have any: Commit assigns it.
  unfoldable pub put_record : Batch → LogRecord → Option (Option Error × Batch)
  put_record b r = do
    found ← lookup_pending_writes b r.key
    elim found [
      | none ↦ some (none, append_pending_writes b r.key r)
      | some i ↦ (do
        old ← get_elem? b.pending_writes i
        some (none, set_pending b i (record r { batch_id = old.batch_id })))
    ]

  -- `Put`
  unfoldable pub put : Batch → Db env → Bytes → Bytes → Option (Option Error × Batch)
  put b db key value = elim (write_guard key b db) [
    | some e ↦ some (some e, b)
    | none ↦ put_record b (record {
      key = key;
      value = value;
      record_type = log_record_normal;
      batch_id = 0;
      expire = zero_ℤ;
    })
  ]

  -- `PutWithTTL`, at the time `now`
  unfoldable pub put_with_ttl :
      Batch → Db env → Bytes → Bytes → ℤ → ℤ → Option (Option Error × Batch)
  put_with_ttl b db key value ttl now = elim (write_guard key b db) [
    | some e ↦ some (some e, b)
    | none ↦ put_record b (record {
      key = key;
      value = value;
      record_type = log_record_normal;
      batch_id = 0;
      expire = now +ℤ ttl;
    })
  ]

  -- `Delete`
  unfoldable pub delete : Batch → Db env → Bytes → Option (Option Error × Batch)
  delete b db key = elim (write_guard key b db) [
    | some e ↦ some (some e, b)
    | none ↦ (do
      found ← lookup_pending_writes b key
      elim found [
        | some i ↦ (do
          r ← get_elem? b.pending_writes i
          some (
            none,
            set_pending b i
                (record r { record_type = log_record_deleted; value = []; expire = zero_ℤ }),
          ))
        | none ↦ some (
          none,
          append_pending_writes b key (record {
            key = key;
            value = [];
            record_type = log_record_deleted;
            batch_id = 0;
            expire = zero_ℤ;
          }),
        )
      ])
  ]
