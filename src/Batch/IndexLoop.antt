-- ===== src/Batch/IndexLoop.antt =====
-- The loops of Commit: the records that reach the log's buffer, and the index behind them.
use distributed_system_proje.Prelude.{
  ℕ, ◌≤◌, ◌≡◌, refl, ap, sym, ◌∙◌, subst, Bytes, Option, none, some, List, [], ◌∷◌, ◌++◌,
  append_assoc, append-nil, arith, if◌then◌else◌, length, get_elem?, All, bytes_equal,
  bytes_equal-eq, bytes_equal_iff, inl, inr, Bool-cases, Option-cases,
}
use distributed_system_proje.Prelude.Int.{ℤ}
use distributed_system_proje.Record.{LogRecord, ChunkPosition, record_header}
use distributed_system_proje.Record.RoundTrip.{IsEncodable, encode_lem}
use distributed_system_proje.Store.{Env}
use distributed_system_proje.Batch.Methods.{is_gone}
use distributed_system_proje.Batch.Commit.{cache_writes, index_record, index_records}
use distributed_system_proje.Batch.Pending.{
  find_at, index_of, find_index, find_at-keys, keys, IsDistinct,
}

-- The bytes of records on disk
abbrev pub encoded : List LogRecord → List Bytes
encoded [] = []
encoded (r ∷ rs) = (record_header r ++ (r.key ++ r.value)) ∷ encoded rs

-- Where a committed record of a key is found
abbrev pub position_in :
    ℤ → Option ChunkPosition → List ChunkPosition → Option (ℕ × LogRecord) → Option ChunkPosition
position_in now old ps none = old
position_in now old ps (some (i, r)) = if is_gone r now then none else get_elem? ps i

find_at-none :
    (key : Bytes) (rs : List LogRecord) → find_index key (keys rs) ≡ none → find_at key rs ≡ none
find_at-none key rs h = elim (Option-cases (find_at key rs)) [
  | inl f ↦ f
  | inr (x, f) ↦ absurd (cc (h, find_at-keys key rs, ap index_of f))
]

-- One round of the index loop, as seen under a key
position_step :
    (now : ℤ) (new old : Option ChunkPosition) (p : ChunkPosition) (ps : List ChunkPosition)
    (key : Bytes) (r : LogRecord) (rs : List LogRecord)
    → new ≡ (if bytes_equal key r.key then (if is_gone r now then none else some p) else old)
    → find_at r.key rs ≡ none
    → position_in now new ps (find_at key rs) ≡ position_in now old (p ∷ ps) (find_at key (r ∷ rs))
unfolding find_at
position_step now new old p ps key r rs e f = elim (Bool-cases (bytes_equal r.key key)) [
  | inl same ↦
      let here : find_at key rs ≡ none =
        subst (λ k. find_at k rs ≡ none) (bytes_equal-eq r.key key same) f in
      ground (arith, here, bytes_equal_iff key r.key, bytes_equal_iff r.key key, e)
  | inr other ↦ elim (Option-cases (find_at key rs)) [
    | inl g ↦ ground (arith, bytes_equal_iff key r.key, bytes_equal_iff r.key key)
    | inr ((i, x), g) ↦ ground arith
  ]
]

module _ (env : Env) where
  -- Commit's encoding loop does not panic on encodable records: their bytes join the log's cached
  -- writes in the order of the batch, and the chunks of the log stay as they are.
  pub cache_writes_lem :
      (log : env.wal.Log) (rs : List LogRecord)
      → All IsEncodable rs
      → (log' : env.wal.Log) × (cache_writes env log rs ≡ some log')
        × (env.wal.pending log' ≡ env.wal.pending log ++ encoded rs)
        × (env.wal.chunks log' ≡ env.wal.chunks log)
  unfolding cache_writes
  cache_writes_lem log [] h = (log, refl, sym (append-nil (env.wal.pending log)), refl)
  cache_writes_lem log (r ∷ rs) (h, hs) =
      let chunk : Bytes = record_header r ++ (r.key ++ r.value) in
      let (log', e, p, c) = cache_writes_lem (env.wal.pending_writes log chunk) rs hs in
      (
        log',
        rw (encode_lem r h, cache_writes) e,
        p
            ∙ ap (λ x. x ++ encoded rs) (env.wal.pending-pending_writes log chunk)
            ∙ append_assoc (env.wal.pending log) (chunk ∷ []) (encoded rs),
        c ∙ env.wal.chunks-pending_writes log chunk,
      )

  get-index_record :
      (now : ℤ) (index : env.indexer.Index) (r : LogRecord) (p : ChunkPosition) (key : Bytes)
      → env.indexer.get (index_record env now index r p) key ≡ (
          if bytes_equal key r.key
          then (if is_gone r now then none else some p)
          else env.indexer.get index key)
  unfolding index_record
  get-index_record now index r p key = elim (Bool-cases (is_gone r now)) [
    | inl gone ↦ rw gone (env.indexer.get-delete index r.key key)
    | inr live ↦ rw live (env.indexer.get-put index r.key key p)
  ]

  -- With one position for each record at least the loop does not panic, and the index holds what the
  -- record of a key says.
  pub index_records_lem :
      (now : ℤ) (index : env.indexer.Index) (rs : List LogRecord) (ps : List ChunkPosition)
      → length rs ≤ length ps
      → IsDistinct (keys rs)
      → (index' : env.indexer.Index) × (index_records env now index rs ps ≡ some index')
        × ((key : Bytes)
            → env.indexer.get index' key
              ≡ position_in now (env.indexer.get index key) ps (find_at key rs))
  unfolding index_records find_at
  index_records_lem now index [] ps h d = (index, refl, λ key. refl)
  index_records_lem now index (r ∷ rs) [] h d = absurd (omega arith)
  index_records_lem now index (r ∷ rs) (p ∷ ps) h d =
      let (index', e, g) =
        index_records_lem now (index_record env now index r p) rs ps (omega arith) d.1 in
      (
        index',
        e,
        λ key.
            g key
            ∙ position_step now _ (env.indexer.get index key) p ps key r rs
                (get-index_record now index r p key) (find_at-none r.key rs d.0),
      )
