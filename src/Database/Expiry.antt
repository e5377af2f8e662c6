-- ===== src/Database/Expiry.antt =====
-- db.go: DeleteExpiredKeys. Its goroutine runs under the write lock; the cursor, expiredCursorKey,
-- stands beside the database, with nil as the empty key, which compares alike.
pub mod Pass
pub mod Quiet
pub mod Stuck
use distributed_system_proje.Prelude.{
  ℕ, zero, suc, Bytes, Bool, true, false, not, leb, Option, none, some, List, [], ◌∷◌, ◌++◌, length,
  if◌then◌else◌, ◌>>=◌,
}
use distributed_system_proje.Prelude.Int.{ℤ}
use distributed_system_proje.Errors.{Error}
use distributed_system_proje.Record.{ChunkPosition, is_expired, decode_log_record}
use distributed_system_proje.Index.Api.{Handler}
use distributed_system_proje.Store.{Env, Db, RwLock, free, writing, reading}
use distributed_system_proje.Store.Log.{answer, failed}
use distributed_system_proje.Batch.Methods.{drop_key}

-- How far the goroutine has come: it has sent an error or nil and released the lock, it runs and holds
-- the lock, it waits for the lock, or it has ended the process.
pub data Progress (env : Env) : Type 0 where
  finished : Option Error → Db env → Bytes → Progress env
  still_running : Db env → Bytes → Progress env
  waiting : Progress env
  panicked : Progress env

-- The handler that collects up to 100 positions
unfoldable pub collect_position : Handler (List (Option ChunkPosition))
collect_position key pos positions =
    let positions' = positions ++ (pos ∷ []) in
    ((not (leb 100 (length positions')), none), positions')

module _ (env : Env) where
  unfoldable pub scan_positions : Db env → Bytes → List (Option ChunkPosition)
  scan_positions db cursor =
      env.indexer.ascend_greater_or_equal (List (Option ChunkPosition)) db.index cursor
        collect_position []

  -- The loop over the positions of one scan: the error of a read, the database and the cursor. `none`
  -- is a panic: a nil position, or a chunk that does not decode.
  unfoldable pub expire_positions :
      Db env → ℤ → Bytes → List (Option ChunkPosition) → Option (Option Error × (Db env × Bytes))
  expire_positions db now cursor [] = some (none, (db, cursor))
  expire_positions db now cursor (none ∷ positions) = none
  expire_positions db now cursor (some pos ∷ positions) = elim (env.wal.read db.data_files pos) [
    | failed e ↦ some (some e, (db, cursor))
    | answer chunk ↦ (elim (decode_log_record chunk) [
      | none ↦ none
      | some r ↦
          expire_positions (if is_expired r now then drop_key env db r.key else db) now r.key
            positions
    ])
  ]

  -- The loop over the scans; fuel bounds their number.
  unfoldable pub expire_loop : ℕ → Db env → ℤ → Bytes → Progress env
  unfolding scan_positions expire_positions
  expire_loop zero db now cursor = still_running db cursor
  expire_loop (suc fuel) db now cursor = elim (scan_positions db cursor) [
    | [] ↦ finished none (record db { mu = free }) []
    | pos ∷ rest ↦ (elim (expire_positions db now cursor (pos ∷ rest)) [
      | none ↦ panicked
      | some (some e, (db', cursor')) ↦ finished (some e) (record db' { mu = free }) cursor'
      | some (none, (db', cursor')) ↦ expire_loop fuel db' now cursor'
    ])
  ]

  -- The goroutine, from `db.mu.Lock()` on
  unfoldable pub delete_expired_keys : ℕ → Db env → ℤ → Bytes → Progress env
  unfolding expire_loop
  delete_expired_keys fuel db now cursor = elim db.mu [
    | free ↦ expire_loop fuel (record db { mu = writing }) now cursor
    | writing ↦ waiting
    | reading n ↦ waiting
  ]

  -- What the caller returns: nil where the timeout comes first, else what the goroutine has sent;
  -- `none` where it waits still
  unfoldable pub expiry_reply : Bool → Progress env → Option (Option Error)
  expiry_reply true progress = some none
  expiry_reply false (finished e db cursor) = some e
  expiry_reply false (still_running db cursor) = none
  expiry_reply false waiting = none
  expiry_reply false panicked = none
