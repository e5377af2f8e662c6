-- ===== src/Recovery/History.antt =====
-- loadIndexFromWAL (db.go) on the log that a history of batches leaves behind.
use distributed_system_proje.Prelude.{
  ℕ, ◌≤◌, ◌<◌, ◌≡◌, ◌≢◌, refl, ◌∙◌, Bytes, Bool, true, false, Option, none, some, List, [], ◌∷◌,
  ◌++◌, arith, length, zip, All,
}
use distributed_system_proje.Prelude.Int.{ℤ}
use distributed_system_proje.Record.{LogRecord, ChunkPosition, IndexRecord, is_expired}
use distributed_system_proje.Record.RoundTrip.{IsEncodable}
use distributed_system_proje.Store.{Env, ok}
use distributed_system_proje.Store.Log.{Chunks}
use distributed_system_proje.Batch.Commit.{index_record, index_records, end_record}
use distributed_system_proje.Batch.IndexLoop.{encoded}
use distributed_system_proje.Recovery.{Waiting, records_of, remove, index_waiting, load_record}
use distributed_system_proje.Recovery.Replay.{
  Plain, waiting_records, append_all, records_of-append_all, records_of-remove,
}

-- A batch that Commit wrote to the log at a time, with the positions that the log answered: as a
-- whole, or torn by a crash before the record that ends it
pub record Logged : Type 0 where
  pub id : ℕ
  pub records : List LogRecord
  pub positions : List ChunkPosition
  pub committed_at : ℤ
  pub whole : Bool

module _ (env : Env) where
  abbrev pub ending : Bool → ℕ → List Bytes
  ending true id = encoded (end_record (env.id_bytes id) ∷ [])
  ending false id = []

  -- The chunks of a batch
  abbrev pub chunks_of : Logged → Chunks
  chunks_of l = zip l.positions (encoded l.records ++ ending l.whole l.id)

  abbrev pub all_chunks : List Logged → Chunks
  all_chunks [] = []
  all_chunks (l ∷ ls) = chunks_of l ++ all_chunks ls

  -- The index loop of Commit, for a batch that reached it
  abbrev pub indexed : Bool → Logged → env.indexer.Index → Option env.indexer.Index
  indexed true l index = index_records env l.committed_at index l.records l.positions
  indexed false l index = some index

  -- The index that the loops of Commit left for the whole batches
  abbrev pub live_index : List Logged → env.indexer.Index → Option env.indexer.Index
  live_index [] index = some index
  live_index (l ∷ ls) index = elim (indexed l.whole l index) [
    | none ↦ none
    | some index' ↦ live_index ls index'
  ]

  -- A batch as Commit wrote it, with no record that is expired at the time of loading
  pub record IsLogged (now : ℤ) (l : Logged) : Type 0 where
    pub has_id : 0 < l.id
    pub plain : All (Plain now l.id) l.records
    pub fresh : All (λ r. is_expired r l.committed_at ≡ false) l.records
    pub placed : length l.records < length l.positions
    pub end_fits : IsEncodable (end_record (env.id_bytes l.id))

  -- No two batches of a history have one id.
  abbrev pub IsHistory : ℤ → List Logged → Type 0
  IsHistory now [] = Unit
  IsHistory now (l ∷ ls) = IsLogged now l × All (λ k. l.id ≢ k.id) ls × IsHistory now ls

  -- One round of the loop at the end of a batch
  abbrev round : env.indexer.Index → LogRecord → ChunkPosition → env.indexer.Index
  round index r p = index_waiting env index (waiting_records (r ∷ []) (p ∷ []))

  round-index_record :
      (at now : ℤ) (id : ℕ) (r : LogRecord) (p : ChunkPosition) (index : env.indexer.Index)
      → Plain now id r
      → is_expired r at ≡ false
      → index_record env at index r p ≡ round index r p
  unfolding index_record index_waiting
  round-index_record at now id r p index (v, t, b, x) w = ground arith

  -- The end of a batch indexes what waits as Commit indexed it.
  pub index_waiting-records :
      (at now : ℤ) (id : ℕ) (rs : List LogRecord) (ps : List ChunkPosition)
      (index : env.indexer.Index)
      → length rs ≤ length ps
      → All (Plain now id) rs
      → All (λ r. is_expired r at ≡ false) rs
      → index_records env at index rs ps ≡ some (index_waiting env index (waiting_records rs ps))
  unfolding index_records index_waiting
  index_waiting-records at now id [] ps index le v w = refl
  index_waiting-records at now id (r ∷ rs) [] index le v w = absurd (omega arith)
  index_waiting-records at now id (r ∷ rs) (p ∷ ps) index le (v, vs) (w, ws) =
      rw (round-index_record at now id r p index v w, index_waiting)
        (index_waiting-records at now id rs ps (round index r p) (omega arith) vs ws)

  pub load-end :
      (now : ℤ) (id : ℕ) (p : ChunkPosition) (index : env.indexer.Index) (m : Waiting)
      → load_record env now (end_record (env.id_bytes id)) p (index, m)
        ≡ ok (index_waiting env index (records_of id m), remove id m)
  unfolding load_record end_record
  load-end now id p index m = rw (env.parse_id-id_bytes id) refl

  pub waiting-batch :
      (id : ℕ) (rs : List IndexRecord) (m : Waiting)
      → records_of id m ≡ []
      → records_of id (append_all id rs m) ≡ rs
  waiting-batch id rs m e = records_of-append_all id id rs m ∙ ground (arith, e)

  pub waiting-other :
      (id k : ℕ) (rs : List IndexRecord) (m : Waiting)
      → id ≢ k
      → records_of k m ≡ []
      → records_of k (append_all id rs m) ≡ []
  waiting-other id k rs m ne e = records_of-append_all k id rs m ∙ ground (arith, e)

  pub waiting-removed :
      (id k : ℕ) (m : Waiting) → records_of k m ≡ [] → records_of k (remove id m) ≡ []
  waiting-removed id k m e = records_of-remove k id m ∙ ground (arith, e)

  -- No record waits for the end of a batch of these.
  abbrev pub NoneWaits : Waiting → List Logged → Type 0
  NoneWaits m ls = All (λ k. records_of k.id m ≡ []) ls

  pub none_waits : (ls : List Logged) → NoneWaits [] ls
  unfolding records_of
  none_waits [] = tt
  none_waits (l ∷ ls) = (refl, none_waits ls)
