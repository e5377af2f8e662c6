-- ===== src/Database.antt =====
-- db.go: the operations of one key, each a batch of one operation. `none` is a panic, or a call that
-- waits for the lock of the database.
pub mod Held
pub mod Writes
pub mod Reads
pub mod Iterate
pub mod Walk
pub mod Scan
pub mod Keys
pub mod Expiry
use distributed_system_proje.Prelude.{ℕ, Bytes, Bool, true, false, Option, none, some, [], ◌>>=◌}
use distributed_system_proje.Prelude.Int.{ℤ}
use distributed_system_proje.Errors.{Error}
use distributed_system_proje.Store.{Env, Db, Batch, Reply, lock}
use distributed_system_proje.Batch
use distributed_system_proje.Batch.Methods
use distributed_system_proje.Batch.Commit.{commit, rollback}

-- A batch of the pool: `newBatch`, or one that `reset` has cleared
unfoldable pub fresh_batch : Bool → Bool → Batch
fresh_batch rdonly sync = record {
  pending_writes = [];
  pending_writes_map = [];
  read_only = rdonly;
  sync = sync;
  committed = false;
  rollbacked = false;
}

module _ (env : Env) where
  -- `batchPool.Get` and `init`, which takes the lock
  unfoldable pub init : Bool → Bool → Db env → Option (Batch × Db env)
  unfolding fresh_batch
  init rdonly sync db = do let b = fresh_batch rdonly sync; db ← lock env b db; some (b, db)

  -- What a writing operation does behind its batch method: Rollback where that failed, else Commit
  unfoldable pub end_write : Option Error → Batch → Db env → ℤ → ℕ → Option (Option Error × Db env)
  end_write (some e) b db now id = do (_, b, db) ← rollback env b db; some (some e, db)
  end_write none b db now id = do (e, b, db) ← commit env b db now id; some (e, db)

  -- What a reading operation does behind its batch method: the Commit of a read-only batch, which
  -- reads no clock and generates no id
  unfoldable pub end_read : {A : Type 0} → Reply A → Batch → Db env → ℤ → Option (Reply A × Db env)
  end_read r b db now = do (_, b, db) ← commit env b db now 0; some (r, db)

  -- `Put`. `now` is the clock of Commit, and `id` the id that it generates.
  unfoldable pub put : Db env → Bytes → Bytes → ℤ → ℕ → Option (Option Error × Db env)
  unfolding init end_write
  put db key value now id = do
    (b, db) ← init false false db
    (e, b) ← Batch.put env b db key value
    end_write e b db now id

  -- `PutWithTTL`, whose batch method reads the clock at `now`
  unfoldable pub put_with_ttl :
      Db env → Bytes → Bytes → ℤ → ℤ → ℤ → ℕ → Option (Option Error × Db env)
  unfolding init end_write
  put_with_ttl db key value ttl now later id = do
    (b, db) ← init false false db
    (e, b) ← Batch.put_with_ttl env b db key value ttl now
    end_write e b db later id

  -- `Get`
  unfoldable pub get : Db env → Bytes → ℤ → Option (Reply Bytes × Db env)
  unfolding init end_read
  get db key now = do
    (b, db) ← init true false db
    (r, db) ← Methods.get env b db key now
    end_read r b db now

  -- `Delete`
  unfoldable pub delete : Db env → Bytes → ℤ → ℕ → Option (Option Error × Db env)
  unfolding init end_write
  delete db key now id = do
    (b, db) ← init false false db
    (e, b) ← Batch.delete env b db key
    end_write e b db now id

  -- `Exist`
  unfoldable pub exist : Db env → Bytes → ℤ → Option (Reply Bool × Db env)
  unfolding init end_read
  exist db key now = do
    (b, db) ← init true false db
    (r, db) ← Methods.exist env b db key now
    end_read r b db now

  -- `Expire`. Its batch method reads the clock a second time only where the key is pending, which it is
  -- not in a fresh batch.
  unfoldable pub expire : Db env → Bytes → ℤ → ℤ → ℤ → ℕ → Option (Option Error × Db env)
  unfolding init end_write
  expire db key ttl now later id = do
    (b, db) ← init false false db
    (e, b, db) ← Methods.expire env b db key ttl now now
    end_write e b db later id

  -- `TTL`
  unfoldable pub ttl : Db env → Bytes → ℤ → Option (Reply ℤ × Db env)
  unfolding init end_read
  ttl db key now = do
    (b, db) ← init true false db
    (r, db) ← Methods.ttl env b db key now
    end_read r b db now

  -- `Persist`
  unfoldable pub persist : Db env → Bytes → ℤ → ℤ → ℕ → Option (Option Error × Db env)
  unfolding init end_write
  persist db key now later id = do
    (b, db) ← init false false db
    (e, b, db) ← Methods.persist env b db key now
    end_write e b db later id
