-- ===== src/Merge/Rewrite.antt =====
-- What doMerge (merge.go) is to keep, and the rewriting of one record.
use distributed_system_proje.Prelude.{
  ◌≡◌, refl, ap, ap₂, sym, ◌∙◌, Bytes, Bool, ◌&&◌, Option, none, some, List, [], ◌∷◌, ◌++◌,
  append-nil, append_assoc, arith, All, map, if◌then◌else◌, ◌⊎◌, inl, inr,
}
use mathlib.Core.List.{map-append}
use distributed_system_proje.Prelude.Int.{ℤ}
use distributed_system_proje.Errors.{Error}
use distributed_system_proje.Record.{
  LogRecord, ChunkPosition, record_header, decode_log_record, decode_hint_record,
}
use distributed_system_proje.Record.RoundTrip.{IsEncodable, encode_lem}
use distributed_system_proje.Record.Hint.{decode_hint-encode_hint}
use distributed_system_proje.Store.{Env}
use distributed_system_proje.Store.Log.{Chunks, LogReply, answer, failed}
use distributed_system_proje.Recovery.{merge_finished_batch_id}
use distributed_system_proje.Merge.{MergeDb, points_to, is_valid_data, rewrite_record}
use distributed_system_proje.Merge.Files.{MergeWal}

-- A record as it is rewritten
abbrev pub cleared : LogRecord → LogRecord
cleared r = record r { batch_id = merge_finished_batch_id }

-- The chunk of a rewritten record at its new position, and what its hint reads back as
abbrev pub data_chunk : ChunkPosition × LogRecord → ChunkPosition × Bytes
data_chunk (p, r) = (p, record_header r ++ (r.key ++ r.value))

abbrev pub hint_of : ChunkPosition × LogRecord → Option (Bytes × ChunkPosition)
hint_of (p, r) = some (r.key, p)

abbrev pub hints : Chunks → List (Option (Bytes × ChunkPosition))
hints cs = map (λ x. decode_hint_record x.1) cs

-- Every chunk holds a record.
abbrev pub Decodes : Chunks → Type 0
Decodes cs = All (λ x. (r : LogRecord) × (decode_log_record x.1 ≡ some r)) cs

module _ (env : Env) (index_at : ChunkPosition → env.indexer.Index) (now : ℤ) where
  -- What doMerge is to keep: the valid records that the index points to
  abbrev pub survives : ChunkPosition → LogRecord → Bool
  survives p r = is_valid_data r now && points_to (env.indexer.get (index_at p) r.key) p

  abbrev pub survivor : Option LogRecord → ChunkPosition → List LogRecord → List LogRecord
  survivor none p rest = rest
  survivor (some r) p rest = if survives p r then cleared r ∷ rest else rest

  unfoldable pub survivors : Chunks → List LogRecord
  survivors [] = []
  survivors ((p, c) ∷ cs) = let rest = survivors cs in survivor (decode_log_record c) p rest

pub write-cases :
    {L : Type 0} (w : L × LogReply ChunkPosition)
    → ((l : L) × ((p : ChunkPosition) × (w ≡ (l, answer p))))
      ⊎ ((l : L) × ((e : Error) × (w ≡ (l, failed e))))
write-cases (l, answer p) = inl (l, (p, refl))
write-cases (l, failed e) = inr (l, (e, refl))

module _ (env : Env) (files : MergeWal env.wal) where
  open files use {reader}

  -- The merge database behind the rewriting of some records: its data files have them at positions of
  -- their own, and each has a hint.
  abbrev pub Rewritten : MergeDb env files → List LogRecord → MergeDb env files → Type 0
  Rewritten m rs m' =
      (ws : List (ChunkPosition × LogRecord)) × ((map (λ w. w.1) ws ≡ rs)
        × (env.wal.chunks m'.data_files ≡ env.wal.chunks m.data_files ++ map data_chunk ws)
        × (hints (env.wal.chunks m'.hint_file)
            ≡ hints (env.wal.chunks m.hint_file) ++ map hint_of ws))

  -- It fails, or it rewrites all of some records.
  abbrev pub Rewrites :
      MergeDb env files → List LogRecord → Option (Option Error × MergeDb env files) → Type 0
  Rewrites m rs out =
      ((e : Error) × ((m' : MergeDb env files) × (out ≡ some (some e, m'))))
      ⊎ ((m' : MergeDb env files) × ((out ≡ some (none, m')) × Rewritten m rs m'))

  hint_written :
      (m : MergeDb env files) (r : LogRecord) (l : env.wal.Log) (p : ChunkPosition)
      → files.write m.data_files (record_header (cleared r) ++ (r.key ++ r.value)) ≡ (l, answer p)
      → IsEncodable (cleared r)
      → Rewrites m (cleared r ∷ []) (rewrite_record env files m r)
  unfolding rewrite_record
  hint_written m r l p e v =
      let (stored, place) = files.chunks-write m.data_files l _ p e in
      let (hint, enc, dec) = decode_hint-encode_hint r.key p place in
      elim (write-cases (files.write m.hint_file hint)) [
        | inr (l', (x, f)) ↦ inl (
          x,
          (
            record { data_files = l; hint_file = l' },
            ground (arith, e, enc, f, encode_lem (cleared r) v),
          ),
        )
        | inl (l', (q, f)) ↦ inr (
          record { data_files = l; hint_file = l' },
          (
            ground (arith, e, enc, f, encode_lem (cleared r) v),
            (
              (p, cleared r) ∷ [],
              (
                refl,
                stored,
                ap hints (files.chunks-write m.hint_file l' hint q f).0
                    ∙ map-append _ (env.wal.chunks m.hint_file) _
                    ∙ ap (λ x. hints (env.wal.chunks m.hint_file) ++ (x ∷ [])) dec,
              ),
            ),
          ),
        )
      ]

  -- The rewriting of one record that can be encoded
  pub rewrite_record-Rewrites :
      (m : MergeDb env files) (r : LogRecord)
      → IsEncodable (cleared r)
      → Rewrites m (cleared r ∷ []) (rewrite_record env files m r)
  unfolding rewrite_record
  rewrite_record-Rewrites m r v =
      elim (write-cases
        (files.write m.data_files (record_header (cleared r) ++ (r.key ++ r.value)))) [
          | inl (l, (p, e)) ↦ hint_written m r l p e v
          | inr (l, (x, e)) ↦
              inl (x, (record m { data_files = l }, ground (arith, e, encode_lem (cleared r) v)))
        ]

  pub nil-Rewritten : (m : MergeDb env files) → Rewritten m [] m
  nil-Rewritten m = ([], (refl, sym (append-nil _), sym (append-nil _)))

  pub append-Rewritten :
      (m m' m'' : MergeDb env files) (rs rs' : List LogRecord)
      → Rewritten m rs m'
      → Rewritten m' rs' m''
      → Rewritten m (rs ++ rs') m''
  append-Rewritten m m' m'' rs rs' (ws, (a, b, c)) (ws', (a', b', c')) = (
    ws ++ ws',
    (
      map-append _ ws ws' ∙ ap₂ (λ x y. x ++ y) a a',
      b'
          ∙ ap (λ z. z ++ map data_chunk ws') b
          ∙ append_assoc _ (map data_chunk ws) _
          ∙ ap (λ z. env.wal.chunks m.data_files ++ z) (sym (map-append data_chunk ws ws')),
      c'
          ∙ ap (λ z. z ++ map hint_of ws') c
          ∙ append_assoc _ (map hint_of ws) _
          ∙ ap (λ z. hints (env.wal.chunks m.hint_file) ++ z) (sym (map-append hint_of ws ws')),
    ),
  )
