-- ===== src/Batch/Committed.antt =====
-- Commit as one atomic step: it makes stored what the batch showed, or it changes no reply at all.
use distributed_system_proje.Prelude.{
  ℕ, suc, ◌≤◌, ◌≡◌, refl, ap, Bytes, true, ltb, Option, none, some, List, [], ◌∷◌, arith, length,
  inl, inr, Bool-cases,
}
use distributed_system_proje.Prelude.Int.{ℤ}
use distributed_system_proje.Record.{LogRecord, ChunkPosition}
use distributed_system_proje.Store.{Env, Db, Batch}
use distributed_system_proje.Watch.{EventQueue}
use distributed_system_proje.Watch.Ring
use distributed_system_proje.Watch.Refine.{put_event_refines}
use distributed_system_proje.Batch.Pending.{find_at, keys, IsDistinct}
use distributed_system_proje.Batch.Commit.{stamp, event_of, put_events, finish_commit}
use distributed_system_proje.Batch.IndexLoop.{encoded, position_in, index_records_lem}

pub keys-stamp : (id : ℕ) (rs : List LogRecord) → keys (stamp id rs) ≡ keys rs
unfolding stamp
keys-stamp id [] = refl
keys-stamp id (r ∷ rs) = ap (◌∷◌ r.key) (keys-stamp id rs)

abbrev pub stamped : ℕ → Option (ℕ × LogRecord) → Option (ℕ × LogRecord)
stamped id none = none
stamped id (some (i, r)) = some (i, record r { batch_id = id })

pub find_at-stamp :
    (id : ℕ) (key : Bytes) (rs : List LogRecord)
    → find_at key (stamp id rs) ≡ stamped id (find_at key rs)
unfolding find_at stamp
find_at-stamp id key [] = refl
find_at-stamp id key (r ∷ rs) = ground (arith, find_at-stamp id key rs)

pub length-stamp : (id : ℕ) (rs : List LogRecord) → length (stamp id rs) ≡ length rs
unfolding stamp
length-stamp id [] = refl
length-stamp id (r ∷ rs) = ap suc (length-stamp id rs)

pub length-encoded : (rs : List LogRecord) → length (encoded rs) ≡ length rs
length-encoded [] = refl
length-encoded (r ∷ rs) = ap suc (length-encoded rs)

pub put_events_lem :
    (q : EventQueue) (rs : List LogRecord)
    → Ring.IsValid q
    → (q' : EventQueue) × (put_events q rs ≡ some q') × Ring.IsValid q'
unfolding put_events
put_events_lem q [] v = (q, refl, v)
put_events_lem q (r ∷ rs) v =
    let (q1, e, v1, _, _) = put_event_refines q (event_of r) v in
    let (q2, e2, v2) = put_events_lem q1 rs v1 in (q2, rw (e, put_events) e2, v2)

module _ (env : Env) where
  -- Behind the flush, with a valid event queue, distinct keys and a position for each record at
  -- least, Commit does not panic and returns no error: it marks the batch committed, changes only the
  -- index and the event queue of the database, keeps the queue valid, and the index then holds no
  -- key of a record that is deleted or expired, the position of every other record under its key,
  -- and under any other key what it held before.
  pub finish_commit_lem :
      (b : Batch) (db : Db env) (now : ℤ) (rs : List LogRecord) (ps : List ChunkPosition)
      → Ring.IsValid db.watcher
      → length rs ≤ length ps
      → IsDistinct (keys rs)
      → (index : env.indexer.Index) × ((q : EventQueue) × (finish_commit env b db now rs ps
            ≡ some (
              none,
              record b { pending_writes = rs; committed = true },
              record db { index = index; watcher = q },
            ))
          × Ring.IsValid q
          × ((key : Bytes)
              → env.indexer.get index key
                ≡ position_in now (env.indexer.get db.index key) ps (find_at key rs)))
  unfolding finish_commit
  finish_commit_lem b db now rs ps v h d =
      let (index, e, g) = index_records_lem env now db.index rs ps h d in
      elim (Bool-cases (ltb 0 db.watch_queue_size)) [
        | inl watched ↦
            (let (q, eq, vq) = put_events_lem db.watcher rs v in
              (index, (q, ground (arith, e, eq, watched), vq, g)))
        | inr quiet ↦ (index, (db.watcher, ground (arith, e, quiet), v, g))
      ]
