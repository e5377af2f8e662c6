-- ===== src/Store/Log.antt =====
-- What the engine uses of the log package, github.com/rosedblabs/wal: an append-only log of chunks.
use distributed_system_proje.Prelude.{◌≡◌, Bytes, Option, List, [], ◌∷◌, ◌++◌, length, zip}
use distributed_system_proje.Errors.{Error}
use distributed_system_proje.Record.{ChunkPosition}

-- What a call of the log answers: a value, or an error
pub data LogReply {ℓ} (A : Type ℓ) : Type ℓ where
  answer : A → LogReply A
  failed : Error → LogReply A

-- The chunks of a log and their positions, in the order of writing
abbrev pub Chunks : Type 0
Chunks = List (ChunkPosition × Bytes)

pub record Wal : Type 1 where
  pub Log : Type 0
  -- what a reader yields from the first segment to the end
  pub chunks : Log → Chunks
  -- what PendingWrites has cached
  pub pending : Log → List Bytes
  pub pending_writes : Log → Bytes → Log
  pub clear_pending_writes : Log → Log
  pub write_all : Log → Log × LogReply (List ChunkPosition)
  pub sync : Log → Log × Option Error
  pub read : Log → ChunkPosition → LogReply Bytes
  pub pending-pending_writes :
      (l : Log) (c : Bytes) → pending (pending_writes l c) ≡ pending l ++ (c ∷ [])
  pub chunks-pending_writes : (l : Log) (c : Bytes) → chunks (pending_writes l c) ≡ chunks l
  pub pending-clear : (l : Log) → pending (clear_pending_writes l) ≡ []
  pub chunks-clear : (l : Log) → chunks (clear_pending_writes l) ≡ chunks l
  pub chunks-sync : (l : Log) → chunks (sync l).0 ≡ chunks l
  pub pending-sync : (l : Log) → pending (sync l).0 ≡ pending l
  -- WriteAll appends the cached chunks in order, each at a position of its own.
  pub chunks-write_all :
      (l l' : Log) (ps : List ChunkPosition)
      → write_all l ≡ (l', answer ps)
      → (chunks l' ≡ chunks l ++ zip ps (pending l))
        × (length ps ≡ length (pending l))
        × (pending l' ≡ [])
  -- A WriteAll that fails leaves what was written before.
  pub chunks-write_all_failed :
      (l l' : Log) (e : Error) → write_all l ≡ (l', failed e) → chunks l' ≡ chunks l
  -- Read gives back a chunk of the log.
  pub read-chunks :
      (l : Log) (pre : Chunks) (p : ChunkPosition) (c : Bytes) (post : Chunks)
      → chunks l ≡ pre ++ ((p, c) ∷ post)
      → read l p ≡ answer c
