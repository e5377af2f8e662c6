-- ===== src/Store.antt =====
-- The state of an open database (db.go, type DB) and of a batch (batch.go, type Batch), over the
-- components that they use: the log (github.com/rosedblabs/wal), the index (index/index.go), the
-- process's hash function (utils/hash.go calls the Go runtime) and the ids of batches (snowflake).
pub mod Log
use distributed_system_proje.Prelude.{
  ℕ, zero, suc, ◌≡◌, Bytes, Bool, Option, none, some, List, [], ◌∷◌, if◌then◌else◌,
}
use distributed_system_proje.Errors.{Error}
use distributed_system_proje.Record.{LogRecord}
use distributed_system_proje.Index.Api.{Indexer}
use distributed_system_proje.Watch.{EventQueue}
use Log.{Wal}

-- What the engine is built on. `parse_id` reads back the text of an id.
pub record Env : Type 1 where
  pub wal : Wal
  pub indexer : Indexer
  pub mem_hash : Bytes → ℕ
  pub id_bytes : ℕ → Bytes
  pub parse_id : Bytes → Option ℕ
  pub parse_id-id_bytes : (id : ℕ) → parse_id (id_bytes id) ≡ some id

-- `sync.RWMutex`: free, held by one writer, or by a number of readers from 1 on
pub data RwLock : Type 0 where
  free : RwLock
  writing : RwLock
  reading : ℕ → RwLock

module _ (env : Env) where
  -- `DB`: the fields that a batch reads or writes. The hint file, the file lock, the merge flag, the
  -- pools, the watch channel, the cursor of the expiry scan and the cron scheduler are not here.
  pub record Db : Type 0 where
    pub data_files : env.wal.Log
    pub index : env.indexer.Index
    pub watch_queue_size : ℕ
    pub sync : Bool
    pub mu : RwLock
    pub closed : Bool
    pub watcher : EventQueue

-- `Batch`. The map from a key's hash to indices of `pending_writes` is an association list.
pub record Batch : Type 0 where
  pub pending_writes : List LogRecord
  pub pending_writes_map : List (ℕ × List ℕ)
  pub read_only : Bool
  pub sync : Bool
  pub committed : Bool
  pub rollbacked : Bool

-- A result of the program: a value, or an error
pub data Reply {ℓ} (A : Type ℓ) : Type ℓ where
  ok : A → Reply A
  err : Error → Reply A

-- One reader less; the last one frees the lock.
unfoldable pub fewer_readers : ℕ → RwLock
fewer_readers zero = free
fewer_readers (suc zero) = free
fewer_readers (suc (suc n)) = reading (suc n)

module _ (env : Env) where
  -- `lock`: `none` where another holder makes the caller wait
  unfoldable pub lock : Batch → Db env → Option (Db env)
  lock b db = elim db.mu [
    | free ↦ some (record db { mu = if b.read_only then reading 1 else writing })
    | writing ↦ none
    | reading n ↦ if b.read_only then some (record db { mu = reading (suc n) }) else none
  ]

  -- `unlock`: to unlock what is not locked so ends the process, `none`
  unfoldable pub unlock : Batch → Db env → Option (Db env)
  unfolding fewer_readers
  unlock b db = elim db.mu [
    | free ↦ none
    | writing ↦ if b.read_only then none else some (record db { mu = free })
    | reading n ↦ if b.read_only then some (record db { mu = fewer_readers n }) else none
  ]
