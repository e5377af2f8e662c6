-- ===== src/Database/Iterate.antt =====
-- db.go: the iterations of the database, over those of the index. `none` is a panic, or a call that
-- waits for the lock. `clock key` is the time at which a key is visited.
use distributed_system_proje.Prelude.{
  Bytes, Bool, true, false, not, ltb, Option, none, some, if◌then◌else◌, length, ◌>>=◌,
}
use distributed_system_proje.Prelude.Int.{ℤ}
use distributed_system_proje.Errors.{Error}
use distributed_system_proje.Record.{ChunkPosition, decode_log_record}
use distributed_system_proje.Index.Api.{Handler}
use distributed_system_proje.Store.{Env, RwLock, Db, Reply, ok, err, free, writing, reading}
use distributed_system_proje.Store.Log.{answer, failed}
use distributed_system_proje.Batch.Methods.{is_gone}

-- `checkValue`: the value, or nil
unfoldable pub check_value : Bytes → ℤ → Option (Option Bytes)
check_value chunk now = do
  r ← decode_log_record chunk
  some (if is_gone r now then none else some r.value)

-- The handler of a caller, for a key and its value, and for a key: whether to go on, or an error
abbrev pub ValueHandler : Type 0 → Type 0
ValueHandler S = Bytes → Bytes → S → (Bool × Option Error) × S

abbrev pub KeyHandler : Type 0 → Type 0
KeyHandler S = Bytes → S → (Bool × Option Error) × S

-- The state of a walk that has panicked is `none`: it goes no further.
abbrev pub panicked : {S : Type 0} → (Bool × Option Error) × Option S
panicked = ((false, none), none)

abbrev pub handled : {S : Type 0} → (Bool × Option Error) × S → (Bool × Option Error) × Option S
handled (a, s) = (a, some s)

-- The pattern of a key iteration, where `compile` is regexp.Compile of Go's library: an empty pattern
-- is none, and matches every key.
abbrev pub matcher : (Bytes → Reply (Bytes → Bool)) → Bytes → Reply (Bytes → Bool)
matcher compile pattern = if ltb 0 (length pattern) then compile pattern else ok (λ key. true)

-- `db.mu.RLock()` and the deferred `RUnlock`, which leave the lock as it was
abbrev pub under_read_lock : {A : Type 0} → RwLock → Option A → Option A
under_read_lock free out = out
under_read_lock (reading n) out = out
under_read_lock writing out = none

module _ (env : Env) where
  -- `dataFiles.Read(pos)` and `checkValue(chunk)` in a handler of the index: `gone` for a record that
  -- is passed over, `live` for one that has a value, `broken` for a read that fails
  unfoldable pub with_value :
      {S : Type 0}
      → Db env
      → ℤ
      → Option ChunkPosition
      → Option S
      → (Error → (Bool × Option Error) × Option S)
      → (Bytes → (Bool × Option Error) × Option S)
      → (Bool × Option Error) × Option S
  unfolding check_value
  with_value db now none s broken live = panicked
  with_value db now (some pos) s broken live = elim (env.wal.read db.data_files pos) [
    | failed e ↦ broken e
    | answer chunk ↦ (elim (check_value chunk now) [
      | none ↦ panicked
      | some none ↦ ((true, none), s)
      | some (some value) ↦ live value
    ])
  ]

  -- The handler that Ascend gives the index, and with `quiet` that of the other value iterations: a
  -- failed read stops them too, without an error.
  unfoldable pub value_handler :
      {S : Type 0} → Db env → (Bytes → ℤ) → Bool → ValueHandler S → Handler (Option S)
  unfolding with_value
  value_handler db clock quiet handle_fn key pos none = panicked
  value_handler db clock quiet handle_fn key pos (some s) =
      with_value db (clock key) pos (some s)
        (λ e. ((false, if quiet then none else some e), some s))
        (λ value. handled (handle_fn key value s))

  -- The handler that the key iterations give the index. A pattern that is not given matches.
  unfoldable pub key_handler :
      {S : Type 0}
      → Db env
      → (Bytes → ℤ)
      → (Bytes → Bool)
      → Bool
      → KeyHandler S
      → Handler (Option S)
  unfolding with_value
  key_handler db clock matches filter_expired handle_fn key pos none = panicked
  key_handler db clock matches filter_expired handle_fn key pos (some s) =
      if not (matches key)
      then ((true, none), some s)
      else if filter_expired
      then with_value db (clock key) pos (some s) (λ e. ((false, some e), some s))
          (λ value. handled (handle_fn key s))
      else handled (handle_fn key s)

  module _ {S : Type 0} (db : Db env) (clock : Bytes → ℤ) where
    unfoldable pub ascend : ValueHandler S → S → Option S
    ascend handle_fn s =
        under_read_lock db.mu
          (env.indexer.ascend (Option S) db.index (value_handler db clock false handle_fn) (some s))

    unfoldable pub ascend_range : Bytes → Bytes → ValueHandler S → S → Option S
    ascend_range start_key end_key handle_fn s = under_read_lock db.mu (
        env.indexer.ascend_range (Option S) db.index start_key end_key
          (value_handler db clock true handle_fn) (some s))

    unfoldable pub ascend_greater_or_equal : Bytes → ValueHandler S → S → Option S
    ascend_greater_or_equal key handle_fn s = under_read_lock db.mu (
        env.indexer.ascend_greater_or_equal (Option S) db.index key
          (value_handler db clock true handle_fn) (some s))

    unfoldable pub descend : ValueHandler S → S → Option S
    descend handle_fn s =
        under_read_lock db.mu
          (env.indexer.descend (Option S) db.index (value_handler db clock true handle_fn) (some s))

    unfoldable pub descend_range : Bytes → Bytes → ValueHandler S → S → Option S
    descend_range start_key end_key handle_fn s = under_read_lock db.mu (
        env.indexer.descend_range (Option S) db.index start_key end_key
          (value_handler db clock true handle_fn) (some s))

    unfoldable pub descend_less_or_equal : Bytes → ValueHandler S → S → Option S
    descend_less_or_equal key handle_fn s = under_read_lock db.mu (
        env.indexer.descend_less_or_equal (Option S) db.index key
          (value_handler db clock true handle_fn) (some s))

    module _ (compile : Bytes → Reply (Bytes → Bool)) where
      -- A key iteration: the pattern first, whose error is returned, then the walk
      abbrev pub walk_keys :
          Bytes
          → Bool
          → KeyHandler S
          → S
          → (Handler (Option S) → Option S → Option S)
          → Option (Option Error × S)
      walk_keys pattern filter_expired handle_fn s walk =
          under_read_lock db.mu (elim (matcher compile pattern) [
            | err e ↦ some (some e, s)
            | ok matches ↦ (do
              s ← walk (key_handler db clock matches filter_expired handle_fn) (some s)
              some (none, s))
          ])

      unfoldable pub ascend_keys : Bytes → Bool → KeyHandler S → S → Option (Option Error × S)
      ascend_keys pattern filter_expired handle_fn s =
          walk_keys pattern filter_expired handle_fn s (env.indexer.ascend (Option S) db.index)

      unfoldable pub ascend_keys_range :
          Bytes → Bytes → Bytes → Bool → KeyHandler S → S → Option (Option Error × S)
      ascend_keys_range start_key end_key pattern filter_expired handle_fn s =
          walk_keys pattern filter_expired handle_fn s
            (env.indexer.ascend_range (Option S) db.index start_key end_key)

      unfoldable pub descend_keys : Bytes → Bool → KeyHandler S → S → Option (Option Error × S)
      descend_keys pattern filter_expired handle_fn s =
          walk_keys pattern filter_expired handle_fn s (env.indexer.descend (Option S) db.index)

      unfoldable pub descend_keys_range :
          Bytes → Bytes → Bytes → Bool → KeyHandler S → S → Option (Option Error × S)
      descend_keys_range start_key end_key pattern filter_expired handle_fn s =
          walk_keys pattern filter_expired handle_fn s
            (env.indexer.descend_range (Option S) db.index start_key end_key)
