-- ===== src/Merge/Files.antt =====
-- What merge.go uses of the log package, github.com/rosedblabs/wal, besides what the engine does.
use distributed_system_proje.Prelude.{ℕ, ◌≡◌, Bytes, Bool, Option, none, [], ◌∷◌, ◌++◌}
use distributed_system_proje.Errors.{Error}
use distributed_system_proje.Record.{ChunkPosition}
use distributed_system_proje.Record.Hint.{IsPosition}
use distributed_system_proje.Store.Log.{Wal, LogReply, answer}
use distributed_system_proje.Recovery.Reader.{WalReader, chunks_in}

pub record MergeWal (wal : Wal) : Type 1 where
  pub reader : WalReader
  pub write : wal.Log → Bytes → wal.Log × LogReply ChunkPosition
  pub is_empty : wal.Log → Bool
  pub active_segment_id : wal.Log → ℕ
  pub open_new_active_segment : wal.Log → wal.Log × Option Error
  pub new_reader : wal.Log → reader.Reader
  pub new_reader_with_max : wal.Log → ℕ → reader.Reader
  -- Write appends one chunk, at a position whose fields are in the range of their Go types.
  pub chunks-write :
      (l l' : wal.Log) (c : Bytes) (p : ChunkPosition)
      → write l c ≡ (l', answer p)
      → (wal.chunks l' ≡ wal.chunks l ++ ((p, c) ∷ [])) × IsPosition p
  pub chunks-open_new : (l : wal.Log) → wal.chunks (open_new_active_segment l).0 ≡ wal.chunks l
  pub pending-open_new : (l : wal.Log) → wal.pending (open_new_active_segment l).0 ≡ wal.pending l
  -- A reader goes through all the chunks, and one that stops at the segment that was active before a
  -- new one was opened through those of before.
  pub new_reader-chunks : (l : wal.Log) → chunks_in (reader.segments (new_reader l)) ≡ wal.chunks l
  pub new_reader_with_max-chunks :
      (l l' : wal.Log)
      → open_new_active_segment l ≡ (l', none)
      → chunks_in (reader.segments (new_reader_with_max l' (active_segment_id l))) ≡ wal.chunks l
