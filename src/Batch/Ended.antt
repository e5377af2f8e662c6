-- ===== src/Batch/Ended.antt =====
-- What a second end of a batch (batch.go: Commit, Rollback) does to the lock of the database.
use distributed_system_proje.Prelude.{
  ℕ, ◌<◌, ◌≡◌, ap, ◌∙◌, true, false, Option, none, some, arith, length,
}
use distributed_system_proje.Prelude.Int.{ℤ}
use distributed_system_proje.Errors.{Error, err_batch_committed}
use distributed_system_proje.Store.{Env, Db, Batch, free, writing, reading, unlock}
use distributed_system_proje.Batch.Commit.{commit_body, and_unlock, commit, rollback, rollback_body}

module _ (env : Env) where
  -- What ending a committed batch again comes to, by who holds the lock of the database
  abbrev pub end_again : Batch → Db env → Option (Option Error × Batch × Db env)
  end_again b db = elim db.mu [
    | free ↦ none
    | writing ↦ some (some err_batch_committed, b, record db { mu = free })
    | reading n ↦ none
  ]

  unlock_again :
      (b : Batch) (db : Db env)
      → b.read_only ≡ false
      → and_unlock env (some (some err_batch_committed, b, db)) ≡ end_again b db
  unfolding unlock
  unlock_again b db w = ground arith

  -- On an open database, a Commit and a Rollback of a committed batch that could write and has records
  -- end the process where the lock of the database is free or held by readers. Where another writer
  -- holds it they return that the batch is committed, and free the lock of the other writer.
  pub commit_again :
      (b : Batch) (db : Db env) (now : ℤ) (id : ℕ)
      → db.closed ≡ false
      → b.read_only ≡ false
      → 0 < length b.pending_writes
      → b.committed ≡ true
      → (commit env b db now id ≡ end_again b db) × (rollback env b db ≡ end_again b db)
  unfolding commit commit_body rollback rollback_body
  commit_again b db now id k w h c =
      let body : commit_body env b db now id ≡ some (some err_batch_committed, b, db) =
        ground arith in
      let undo : rollback_body env b db ≡ some (some err_batch_committed, b, db) = ground arith in
      (
        ap (and_unlock env) body ∙ unlock_again b db w,
        ap (and_unlock env) undo ∙ unlock_again b db w,
      )
