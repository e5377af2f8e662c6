-- ===== src/Recovery.antt =====
-- db.go: loadIndexFromWAL, which rebuilds the index from the log when a database is opened. `none` is
-- a panic.
pub mod Reader
pub mod Reading
pub mod Replay
pub mod History
pub mod Recovered
pub mod Segments
pub mod Expired
use distributed_system_proje.Prelude.{
  ℕ, zero, suc, Bytes, Bool, true, false, ◌&&◌, Option, none, some, List, [], ◌∷◌, ◌++◌, ◌==◌, leb,
  if◌then◌else◌, ◌>>=◌,
}
use distributed_system_proje.Prelude.Int.{ℤ}
use distributed_system_proje.Errors.{Error, external}
use distributed_system_proje.Record.{
  LogRecord, ChunkPosition, IndexRecord, log_record_normal, log_record_deleted,
  log_record_batch_finished, is_expired, decode_log_record,
}
use distributed_system_proje.Store.{Env, Reply, ok, err}
use Reader.{WalReader, ReadResult, chunk, end_of_log, broken}

-- The map `indexRecords` from a batch id to the records that wait for the end of their batch
abbrev pub Waiting : Type 0
Waiting = List (ℕ × List IndexRecord)

unfoldable pub records_of : ℕ → Waiting → List IndexRecord
records_of id [] = []
records_of id ((k, rs) ∷ m) = if k == id then rs else records_of id m

-- `m[id] = append(m[id], r)`
unfoldable pub append_to : ℕ → IndexRecord → Waiting → Waiting
append_to id r [] = (id, r ∷ []) ∷ []
append_to id r ((k, rs) ∷ m) =
    if k == id then (k, rs ++ (r ∷ [])) ∷ m else (k, rs) ∷ append_to id r m

-- `delete(m, id)`
unfoldable pub remove : ℕ → Waiting → Waiting
remove id [] = []
remove id ((k, rs) ∷ m) = let rest = remove id m in if k == id then rest else (k, rs) ∷ rest

-- `mergeFinishedBatchID`
abbrev pub merge_finished_batch_id : ℕ
merge_finished_batch_id = 0

-- snowflake.ParseBytes did not read a batch id.
abbrev pub err_batch_id : Error
err_batch_id = external 0

module _ (env : Env) where
  -- What the loop carries along: the index, and the records that wait
  abbrev pub Loading : Type 0
  Loading = env.indexer.Index × Waiting

  -- The records of a finished batch
  unfoldable pub index_waiting : env.indexer.Index → List IndexRecord → env.indexer.Index
  index_waiting index [] = index
  index_waiting index (r ∷ rs) =
      let put_it =
        if r.record_type == log_record_normal
        then (env.indexer.put index r.key r.position).0
        else index in
      let delete_it =
        if r.record_type == log_record_deleted
        then (env.indexer.delete put_it r.key).0
        else put_it in
      index_waiting delete_it rs

  -- What the loop does with a record at a position
  unfoldable pub load_record : ℤ → LogRecord → ChunkPosition → Loading → Reply Loading
  unfolding records_of append_to remove index_waiting
  load_record now r position (index, waiting) =
      if r.record_type == log_record_batch_finished
      then (elim (env.parse_id r.key) [
        | none ↦ err err_batch_id
        | some batch_id ↦
            ok (index_waiting index (records_of batch_id waiting), remove batch_id waiting)
      ])
      else if r.record_type == log_record_normal && r.batch_id == merge_finished_batch_id
      then ok ((env.indexer.put index r.key position).0, waiting)
      else if is_expired r now
      then ok ((env.indexer.delete index r.key).0, waiting)
      else ok (
        index,
        append_to r.batch_id
            (record { key = r.key; record_type = r.record_type; position = position }) waiting,
      )

  module _ (reader : WalReader) where
    -- The loop over the reader, on fuel: `none` where it runs out
    unfoldable pub load_loop : ℕ → ℤ → ℕ → reader.Reader → Loading → Option (Reply Loading)
    load_loop zero now merge_fin r st = none
    load_loop (suc fuel) now merge_fin r st = elim (reader.current_segment_id r) [
      | none ↦ none
      | some id ↦ (elim (leb id merge_fin) [
        | true ↦ load_loop fuel now merge_fin (reader.skip_current_segment r) st
        | false ↦
            (let (r', result) = reader.next r in
              elim result [
                | end_of_log ↦ some (ok st)
                | broken e ↦ some (err e)
                | chunk position bytes ↦ (elim (decode_log_record bytes) [
                  | none ↦ none
                  | some log_record ↦ (elim (load_record now log_record position st) [
                    | err e ↦ some (err e)
                    | ok st' ↦ load_loop fuel now merge_fin r' st'
                  ])
                ])
              ])
      ])
    ]

    -- `loadIndexFromWAL`. `merge_fin` is what getMergeFinSegmentId returned; SetIsStartupTraversal, a
    -- hint to the caches of the log package, is not here.
    unfoldable pub load_index_from_wal :
        ℕ → ℤ → Reply ℕ → reader.Reader → env.indexer.Index → Option (Reply env.indexer.Index)
    load_index_from_wal fuel now merge_fin r index = elim merge_fin [
      | err e ↦ some (err e)
      | ok fin ↦ (do
        out ← load_loop fuel now fin r (index, [])
        some (elim out [ err e ↦ err e | ok (index', waiting) ↦ ok index' ]))
    ]
