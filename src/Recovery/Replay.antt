-- ===== src/Recovery/Replay.antt =====
-- loadIndexFromWAL (db.go) on the chunks of whole and of torn batches.
use distributed_system_proje.Prelude.{
  drop, ◌||◌, ℕ, ◌≤◌, ◌<◌, ◌≡◌, refl, sym, ◌∙◌, Bytes, true, false, Option, none, some, List, [],
  ◌∷◌, ◌++◌, append_assoc, append-nil, arith, ◌==◌, if◌then◌else◌, length, zip, All, inl, inr,
  Bool-cases,
}
use distributed_system_proje.Prelude.Int.{ℤ}
use distributed_system_proje.Record.{
  LogRecord, ChunkPosition, IndexRecord, log_record_normal, log_record_deleted, is_expired,
  decode_log_record,
}
use distributed_system_proje.Record.RoundTrip.{IsEncodable, decode-record_header}
use distributed_system_proje.Store.{Env, Reply, ok, err}
use distributed_system_proje.Store.Log.{Chunks}
use distributed_system_proje.Batch.IndexLoop.{encoded}
use distributed_system_proje.Recovery.{Waiting, Loading, records_of, append_to, remove, load_record}

records_of-append_to :
    (id k : ℕ) (r : IndexRecord) (m : Waiting)
    → records_of id (append_to k r m)
      ≡ (if k == id then records_of id m ++ (r ∷ []) else records_of id m)
unfolding records_of append_to
records_of-append_to id k r [] = ground arith
records_of-append_to id k r ((j, rs) ∷ m) = ground (arith, records_of-append_to id k r m)

pub records_of-remove :
    (id k : ℕ) (m : Waiting)
    → records_of id (remove k m) ≡ (if k == id then [] else records_of id m)
unfolding records_of remove
records_of-remove id k [] = ground arith
records_of-remove id k ((j, rs) ∷ m) = ground (arith, records_of-remove id k m)

-- What waits of the records of a batch at their positions
abbrev pub waiting_records : List LogRecord → List ChunkPosition → List IndexRecord
waiting_records [] ps = []
waiting_records (r ∷ rs) [] = []
waiting_records (r ∷ rs) (p ∷ ps) =
    record { key = r.key; record_type = r.record_type; position = p } ∷ waiting_records rs ps

abbrev pub append_all : ℕ → List IndexRecord → Waiting → Waiting
append_all id [] m = m
append_all id (r ∷ rs) m = append_all id rs (append_to id r m)

pub records_of-append_all :
    (id k : ℕ) (rs : List IndexRecord) (m : Waiting)
    → records_of id (append_all k rs m)
      ≡ (if k == id then records_of id m ++ rs else records_of id m)
records_of-append_all id k [] m = elim (Bool-cases (k == id)) [
  | inl e ↦ rw e (sym (append-nil (records_of id m)))
  | inr e ↦ rw e refl
]
records_of-append_all id k (r ∷ rs) m = elim (Bool-cases (k == id)) [
  | inl e ↦
      records_of-append_all id k rs (append_to k r m)
      ∙ rw (records_of-append_to id k r m, e) (append_assoc (records_of id m) (r ∷ []) rs)
  | inr e ↦
      records_of-append_all id k rs (append_to k r m) ∙ rw (records_of-append_to id k r m, e) refl
]

-- A record that Commit writes for a batch, and that is not expired at the time of loading
abbrev pub Plain : ℤ → ℕ → LogRecord → Type 0
Plain now id r =
    IsEncodable r
    × ((r.record_type == log_record_normal) || (r.record_type == log_record_deleted)) ≡ true
    × (r.batch_id ≡ id)
    × (is_expired r now ≡ false)

module _ (env : Env) where
  -- The loop over chunks that are all read and belong to segments that are not skipped
  unfoldable pub replay : ℤ → Chunks → Loading env → Option (Reply (Loading env))
  replay now [] st = some (ok st)
  replay now ((p, c) ∷ cs) st = elim (decode_log_record c) [
    | none ↦ none
    | some r ↦ (elim (load_record env now r p st) [
      | err e ↦ some (err e)
      | ok st' ↦ replay now cs st'
    ])
  ]

  pub replay-step :
      (now : ℤ) (p : ChunkPosition) (c : Bytes) (cs : Chunks) (st st' : Loading env) (r : LogRecord)
      → decode_log_record c ≡ some r
      → load_record env now r p st ≡ ok st'
      → replay now ((p, c) ∷ cs) st ≡ replay now cs st'
  unfolding replay
  replay-step now p c cs st st' r d e = rw (d, replay) (rw e refl)

  load-Plain :
      (now : ℤ) (id : ℕ) (r : LogRecord) (p : ChunkPosition) (index : env.indexer.Index)
      (m : Waiting)
      → 0 < id
      → Plain now id r
      → load_record env now r p (index, m)
        ≡ ok (
          index,
          append_to id (record { key = r.key; record_type = r.record_type; position = p }) m,
        )
  unfolding load_record
  load-Plain now id r p index m h (v, t, b, x) = ground arith

  -- The records of a batch wait, and the index stays as it is.
  pub replay-records :
      (now : ℤ) (id : ℕ) (rs : List LogRecord) (ps : List ChunkPosition) (rest : List Bytes)
      (more : Chunks) (index : env.indexer.Index) (m : Waiting)
      → 0 < id
      → length rs ≤ length ps
      → All (Plain now id) rs
      → replay now (zip ps (encoded rs ++ rest) ++ more) (index, m)
        ≡ replay now
            (zip (drop (length rs) ps) rest ++ more)
            (index, append_all id (waiting_records rs ps) m)
  replay-records now id [] ps rest more index m h le v = refl
  replay-records now id (r ∷ rs) [] rest more index m h le v = absurd (omega arith)
  replay-records now id (r ∷ rs) (p ∷ ps) rest more index m h le (v, vs) =
      replay-step now p _ (zip ps (encoded rs ++ rest) ++ more) (index, m) _ r
        (decode-record_header r v.0) (load-Plain now id r p index m h v)
      ∙ replay-records now id rs ps rest more index _ h (omega arith) vs
