-- ===== src/Batch/Commit.antt =====
-- batch.go: Commit and Rollback. `none` is a panic, or the end of the process where a lock that is
-- not held is unlocked.
use distributed_system_proje.Prelude.{
  ℕ, ◌+◌, Bytes, true, not, ◌&&◌, ◌||◌, Option, none, some, List, [], ◌∷◌, ◌++◌, ◌==◌, ltb,
  if◌then◌else◌, length, ◌>>=◌,
}
use distributed_system_proje.Prelude.Int.{ℤ, zero_ℤ}
use distributed_system_proje.Errors.{
  Error, err_db_closed, err_batch_committed, err_batch_rollbacked,
}
use distributed_system_proje.Record.{
  LogRecord, ChunkPosition, log_record_batch_finished, encode_log_record,
}
use distributed_system_proje.Watch.{
  Event, EventQueue, watch_action_put, watch_action_delete, put_event,
}
use distributed_system_proje.Store.{Env, Db, Batch, unlock}
use distributed_system_proje.Store.Log.{LogReply, answer, failed}
use distributed_system_proje.Batch.Methods.{is_deleted, is_gone}

-- `record.BatchId = uint64(batchId)`, for every pending record
unfoldable pub stamp : ℕ → List LogRecord → List LogRecord
stamp batch_id [] = []
stamp batch_id (r ∷ rs) = record r { batch_id = batch_id } ∷ stamp batch_id rs

-- The event of a committed record
unfoldable pub event_of : LogRecord → Event
event_of r = record {
  action = if is_deleted r then watch_action_delete else watch_action_put;
  key = r.key;
  value = r.value;
  batch_id = r.batch_id;
}

-- The record that ends a batch: its key is the text of the batch id
unfoldable pub end_record : Bytes → LogRecord
end_record id_text = record {
  key = id_text;
  value = [];
  record_type = log_record_batch_finished;
  batch_id = 0;
  expire = zero_ℤ;
}

-- The events of the loop over the index
unfoldable pub put_events : EventQueue → List LogRecord → Option EventQueue
unfolding event_of
put_events q [] = some q
put_events q (r ∷ rs) = elim (put_event q (event_of r)) [ none ↦ none | some q' ↦ put_events q' rs ]

module _ (env : Env) where
  -- The loop that encodes the records and hands them to the log's buffer
  unfoldable pub cache_writes : env.wal.Log → List LogRecord → Option env.wal.Log
  cache_writes log [] = some log
  cache_writes log (r ∷ rs) = elim (encode_log_record r) [
    | none ↦ none
    | some chunk ↦ cache_writes (env.wal.pending_writes log chunk) rs
  ]

  -- One round of the loop over the index
  unfoldable pub index_record :
      ℤ → env.indexer.Index → LogRecord → ChunkPosition → env.indexer.Index
  index_record now index r position =
      if is_gone r now
      then (env.indexer.delete index r.key).0
      else (env.indexer.put index r.key position).0

  -- The loop over the index. WriteAll answered one position more than there are records.
  unfoldable pub index_records :
      ℤ → env.indexer.Index → List LogRecord → List ChunkPosition → Option env.indexer.Index
  unfolding index_record
  index_records now index [] ps = some index
  index_records now index (r ∷ rs) [] = none
  index_records now index (r ∷ rs) (p ∷ ps) = index_records now (index_record now index r p) rs ps

  -- From the flush on: the index is written last
  unfoldable pub finish_commit :
      Batch
      → Db env
      → ℤ
      → List LogRecord
      → List ChunkPosition
      → Option (Option Error × Batch × Db env)
  finish_commit b db now rs ps = do
    index ← index_records now db.index rs ps
    watcher ← if ltb 0 db.watch_queue_size then put_events db.watcher rs else some db.watcher
    some (
      none,
      record b { pending_writes = rs; committed = true },
      record db { index = index; watcher = watcher },
    )

  -- `if b.options.Sync && !b.db.options.Sync`
  unfoldable pub flush_and_finish :
      Batch
      → Db env
      → ℤ
      → List LogRecord
      → List ChunkPosition
      → Option (Option Error × Batch × Db env)
  flush_and_finish b db now rs ps =
      if b.sync && not db.sync
      then (let (log, sync_error) = env.wal.sync db.data_files in
          elim sync_error [
            | some e ↦
                some (some e, record b { pending_writes = rs }, record db { data_files = log })
            | none ↦ finish_commit b (record db { data_files = log }) now rs ps
          ])
      else finish_commit b db now rs ps

  -- What follows WriteAll: an error drops the cached writes, a wrong number of positions panics.
  unfoldable pub after_write :
      Batch
      → Db env
      → ℤ
      → List LogRecord
      → LogReply (List ChunkPosition)
      → Option (Option Error × Batch × Db env)
  after_write b db now rs (failed e) = some (
    some e,
    record b { pending_writes = rs },
    record db { data_files = env.wal.clear_pending_writes db.data_files },
  )
  after_write b db now rs (answer ps) =
      if length ps == length rs + 1 then flush_and_finish b db now rs ps else none

  -- The part of Commit from the batch id to its end
  unfoldable pub write_batch : Batch → Db env → ℤ → ℕ → Option (Option Error × Batch × Db env)
  write_batch b db now batch_id = do
    let rs = stamp batch_id b.pending_writes
    log ← cache_writes db.data_files (rs ++ (end_record (env.id_bytes batch_id) ∷ []))
    let (log, reply) = env.wal.write_all log
    after_write b (record db { data_files = log }) now rs reply

  -- Commit, less its deferred unlock
  unfoldable pub commit_body : Batch → Db env → ℤ → ℕ → Option (Option Error × Batch × Db env)
  commit_body b db now batch_id =
      if db.closed
      then some (some err_db_closed, b, db)
      else if b.read_only || length b.pending_writes == 0
      then some (none, b, db)
      else if b.committed
      then some (some err_batch_committed, b, db)
      else if b.rollbacked
      then some (some err_batch_rollbacked, b, db)
      else write_batch b db now batch_id

  -- `defer b.unlock()` runs on every way out of Commit and Rollback.
  abbrev pub and_unlock :
      Option (Option Error × Batch × Db env) → Option (Option Error × Batch × Db env)
  and_unlock out = do (e, b, db) ← out; db ← unlock env b db; some (e, b, db)

  -- `Commit`, at the time `now` and with the id that the batch's node generates
  unfoldable pub commit : Batch → Db env → ℤ → ℕ → Option (Option Error × Batch × Db env)
  commit b db now batch_id = and_unlock (commit_body b db now batch_id)

  -- Rollback, less its deferred unlock
  unfoldable pub rollback_body : Batch → Db env → Option (Option Error × Batch × Db env)
  rollback_body b db =
      if db.closed
      then some (some err_db_closed, b, db)
      else if b.committed
      then some (some err_batch_committed, b, db)
      else if b.rollbacked
      then some (some err_batch_rollbacked, b, db)
      else if b.read_only
      then some (none, record b { rollbacked = true }, db)
      else some
          (none, record b { pending_writes = []; pending_writes_map = []; rollbacked = true }, db)

  -- `Rollback`
  unfoldable pub rollback : Batch → Db env → Option (Option Error × Batch × Db env)
  rollback b db = and_unlock (rollback_body b db)
