-- ===== src/Batch/Methods.antt =====
-- batch.go: the methods that look at the stored record of a key. `none` is a panic. `now` is the
-- clock of each call of time.Now, in their order where a method reads it twice.
use distributed_system_proje.Prelude.{
  ℕ, Bytes, Bool, true, false, not, ◌&&◌, ◌||◌, Option, none, some, ◌==◌, if◌then◌else◌, get_elem?,
  ◌>>=◌,
}
use distributed_system_proje.Prelude.Int.{ℤ, negsuc, zero_ℤ, is_zero_ℤ, ltb_ℤ, ◌+ℤ◌, ◌-ℤ◌}
use distributed_system_proje.Errors.{Error, err_key_not_found}
use distributed_system_proje.Record.{LogRecord, log_record_deleted, is_expired, decode_log_record}
use distributed_system_proje.Store.{Env, Db, Batch, Reply, ok, err}
use distributed_system_proje.Store.Log.{answer, failed}
use distributed_system_proje.Batch.{
  lookup_pending_writes, append_pending_writes, read_guard, write_guard, set_pending,
}

-- What the index and the log hold of a key
pub data Stored : Type 0 where
  absent : Stored
  unreadable : Error → Stored
  found : LogRecord → Stored

abbrev pub is_deleted : LogRecord → Bool
is_deleted r = r.record_type == log_record_deleted

-- `record.Type == LogRecordDeleted || record.IsExpired(now)`
abbrev pub is_gone : LogRecord → ℤ → Bool
is_gone r now = is_deleted r || is_expired r now

module _ (env : Env) where
  -- `b.db.index.Get(key)`, `b.db.dataFiles.Read(position)`, `decodeLogRecord(chunk)`
  unfoldable pub stored_record : Db env → Bytes → Option Stored
  stored_record db key = elim (env.indexer.get db.index key) [
    | none ↦ some absent
    | some position ↦ (elim (env.wal.read db.data_files position) [
      | failed e ↦ some (unreadable e)
      | answer chunk ↦ (do r ← decode_log_record chunk; some (found r))
    ])
  ]

  -- The record of a key in the pending writes
  unfoldable pub pending_record : Batch → Bytes → Option (Option (ℕ × LogRecord))
  pending_record b key = do
    i ← lookup_pending_writes env b key
    elim i [ none ↦ some none | some i ↦ (do r ← get_elem? b.pending_writes i; some (some (i, r))) ]

  -- `b.db.index.Delete(key)`
  abbrev pub drop_key : Db env → Bytes → Db env
  drop_key db key = record db { index = (env.indexer.delete db.index key).0 }

  -- What Get makes of the stored record
  unfoldable pub get_stored : Db env → Bytes → ℤ → Option (Reply Bytes × Db env)
  get_stored db key now = do
    s ← stored_record db key
    elim s [
      | absent ↦ some (err err_key_not_found, db)
      | unreadable e ↦ some (err e, db)
      | found r ↦
          if is_deleted r
          then none
          else if is_expired r now
          then some (err err_key_not_found, drop_key db r.key)
          else some (ok r.value, db)
    ]

  -- `Get`, behind the lookup of the pending record, which waits for the guards
  unfoldable pub get_with :
      Db env → Bytes → ℤ → Option (Option (ℕ × LogRecord)) → Option (Reply Bytes × Db env)
  get_with db key now pending = elim (read_guard env key db) [
    | some e ↦ some (err e, db)
    | none ↦ (do
      p ← pending
      elim p [
        | some (i, r) ↦ some (if is_gone r now then err err_key_not_found else ok r.value, db)
        | none ↦ get_stored db key now
      ])
  ]

  -- `Get`
  unfoldable pub get : Batch → Db env → Bytes → ℤ → Option (Reply Bytes × Db env)
  unfolding get_with
  get b db key now = get_with db key now (pending_record b key)

  -- `Exist`
  unfoldable pub exist : Batch → Db env → Bytes → ℤ → Option (Reply Bool × Db env)
  exist b db key now = elim (read_guard env key db) [
    | some e ↦ some (err e, db)
    | none ↦ (do
      p ← pending_record b key
      elim p [
        | some (i, r) ↦ some (ok (not (is_deleted r) && not (is_expired r now)), db)
        | none ↦ (do
          s ← stored_record db key
          elim s [
            | absent ↦ some (ok false, db)
            | unreadable e ↦ some (err e, db)
            | found r ↦
                if is_gone r now then some (ok false, drop_key db r.key) else some (ok true, db)
          ])
      ])
  ]

  -- `Expire`; `now` and `later` are its two readings of the clock for a pending record.
  unfoldable pub expire :
      Batch → Db env → Bytes → ℤ → ℤ → ℤ → Option (Option Error × Batch × Db env)
  expire b db key ttl now later = elim (write_guard env key b db) [
    | some e ↦ some (some e, b, db)
    | none ↦ (do
      p ← pending_record b key
      elim p [
        | some (i, r) ↦
            if is_gone r now
            then some (some err_key_not_found, b, db)
            else some (none, set_pending b i (record r { expire = later +ℤ ttl }), db)
        | none ↦ (do
          s ← stored_record db key
          elim s [
            | absent ↦ some (some err_key_not_found, b, db)
            | unreadable e ↦ some (some e, b, db)
            | found r ↦
                if is_gone r now
                then some (some err_key_not_found, b, drop_key db key)
                else some
                    (none, append_pending_writes env b key (record r { expire = now +ℤ ttl }), db)
          ])
      ])
  ]

  -- The duration -1 that TTL returns for a key with no expiry
  abbrev pub no_ttl : ℤ
  no_ttl = negsuc 0

  -- `TTL`
  unfoldable pub ttl : Batch → Db env → Bytes → ℤ → Option (Reply ℤ × Db env)
  ttl b db key now = elim (read_guard env key db) [
    | some e ↦ some (err e, db)
    | none ↦ (do
      p ← pending_record b key
      elim p [
        | some (i, r) ↦
            if is_zero_ℤ r.expire
            then some (ok no_ttl, db)
            else if is_gone r now
            then some (err err_key_not_found, db)
            else some (ok (r.expire -ℤ now), db)
        | none ↦ (do
          s ← stored_record db key
          elim s [
            | absent ↦ some (err err_key_not_found, db)
            | unreadable e ↦ some (err e, db)
            | found r ↦
                if is_deleted r
                then some (err err_key_not_found, db)
                else if is_expired r now
                then some (err err_key_not_found, drop_key db key)
                else if ltb_ℤ zero_ℤ r.expire
                then some (ok (r.expire -ℤ now), db)
                else some (ok no_ttl, db)
          ])
      ])
  ]

  -- `Persist`
  unfoldable pub persist : Batch → Db env → Bytes → ℤ → Option (Option Error × Batch × Db env)
  persist b db key now = elim (write_guard env key b db) [
    | some e ↦ some (some e, b, db)
    | none ↦ (do
      p ← pending_record b key
      elim p [
        | some (i, r) ↦
            if is_gone r now
            then some (some err_key_not_found, b, db)
            else some (none, set_pending b i (record r { expire = zero_ℤ }), db)
        | none ↦ (do
          s ← stored_record db key
          elim s [
            | absent ↦ some (some err_key_not_found, b, db)
            | unreadable e ↦ some (some e, b, db)
            | found r ↦
                if is_gone r now
                then some (some err_key_not_found, b, drop_key db r.key)
                else if is_zero_ℤ r.expire
                then some (none, b, db)
                else some (none, append_pending_writes env b key (record r { expire = zero_ℤ }), db)
          ])
      ])
  ]
