-- ===== src/Recovery/Reader.antt =====
-- What db.go uses of the reader of the log package, github.com/rosedblabs/wal: the segments of a log
-- in the order of their ids, each with its chunks.
use distributed_system_proje.Prelude.{ℕ, ◌≡◌, ◌⊎◌, Bytes, Option, none, some, List, [], ◌∷◌, ◌++◌}
use distributed_system_proje.Errors.{Error}
use distributed_system_proje.Record.{ChunkPosition}
use distributed_system_proje.Store.Log.{Chunks}

-- What Next returns: a chunk, io.EOF, or another error
pub data ReadResult : Type 0 where
  chunk : ChunkPosition → Bytes → ReadResult
  end_of_log : ReadResult
  broken : Error → ReadResult

-- A segment that is still to be read, or what is left of it
pub record Segment : Type 0 where
  pub id : ℕ
  pub chunks : Chunks

abbrev pub chunks_in : List Segment → Chunks
chunks_in [] = []
chunks_in (s ∷ ss) = s.chunks ++ chunks_in ss

abbrev pub first_id : List Segment → Option ℕ
first_id [] = none
first_id (s ∷ ss) = some s.id

abbrev pub rest_of : List Segment → List Segment
rest_of [] = []
rest_of (s ∷ ss) = ss

-- What is left behind the next chunk of some segments, and that chunk
abbrev pub next_in :
    ℕ → Chunks → List Segment × ReadResult → List Segment → List Segment × ReadResult
next_in id [] later ss = later
next_in id ((p, c) ∷ cs) later ss = (record { id = id; chunks = cs } ∷ ss, chunk p c)

abbrev pub next_of : List Segment → List Segment × ReadResult
next_of [] = ([], end_of_log)
next_of (s ∷ ss) = next_in s.id s.chunks (next_of ss) ss

pub record WalReader : Type 1 where
  pub Reader : Type 0
  pub segments : Reader → List Segment
  -- `none` where no segment is left: an index out of range
  pub current_segment_id : Reader → Option ℕ
  pub skip_current_segment : Reader → Reader
  pub next : Reader → Reader × ReadResult
  pub current-segments : (r : Reader) → current_segment_id r ≡ first_id (segments r)
  pub skip-segments : (r : Reader) → segments (skip_current_segment r) ≡ rest_of (segments r)
  -- Next goes on to the next segment where the current one has no chunk left, and may fail.
  pub next-segments :
      (r : Reader)
      → ((e : Error) × ((next r).1 ≡ broken e))
        ⊎ ((segments (next r).0 ≡ (next_of (segments r)).0)
            × ((next r).1 ≡ (next_of (segments r)).1))
