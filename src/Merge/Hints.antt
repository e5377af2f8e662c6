-- ===== src/Merge/Hints.antt =====
-- loadIndexFromHintFile (merge.go) on the hints of rewritten records.
use distributed_system_proje.Prelude.{
  ℕ, zero, suc, ◌<◌, ◌≡◌, refl, ap, sym, ◌∙◌, Bytes, true, false, Option, none, some, List, [], ◌∷◌,
  ◌++◌, arith, All, map, length, if◌then◌else◌, bytes_equal, ◌⊎◌, inl, inr, Bool-cases, subst,
}
use distributed_system_proje.Errors.{Error}
use distributed_system_proje.Record.{LogRecord, ChunkPosition, decode_hint_record}
use distributed_system_proje.Store.{Env}
use distributed_system_proje.Store.Log.{Chunks}
use distributed_system_proje.Recovery.Reader.{chunks_in, chunk, end_of_log}
use distributed_system_proje.Recovery.Reading.{Handed, next-Handed}
use distributed_system_proje.Merge.{hint_loop}
use distributed_system_proje.Merge.Files.{MergeWal}
use distributed_system_proje.Merge.Rewrite.{hints, hint_of}

-- Rewritten records and their new positions
abbrev pub Placements : Type 0
Placements = List (ChunkPosition × LogRecord)

-- The position of the last record of a key, else another one
abbrev pub last_at : Bytes → Placements → Option ChunkPosition → Option ChunkPosition
last_at key [] old = old
last_at key ((p, r) ∷ ws) old = last_at key ws (if bytes_equal key r.key then some p else old)

-- Where all records of a key are one, its position is that of a place of this record, or there is none.
pub last_at-cases :
    (key : Bytes) (x : LogRecord) (ws : Placements) (old : Option ChunkPosition)
    → All (λ w. bytes_equal key w.1.key ≡ true → w.1 ≡ x) ws
    → ((last_at key ws old ≡ old) × All (λ w. bytes_equal key w.1.key ≡ false) ws)
      ⊎ ((p : ChunkPosition) × ((before : Placements) × ((after : Placements) × (last_at key ws old
                ≡ some p)
              × (ws ≡ before ++ ((p, x) ∷ after)))))
last_at-cases key x [] old h = inl (refl, tt)
last_at-cases key x ((p, r) ∷ ws) old (h, hs) = elim (Bool-cases (bytes_equal key r.key)) [
  | inl same ↦ elim (last_at-cases key x ws (some p) hs) [
    | inl (l, others) ↦ inr (p, ([], (ws, rw same l, ap (λ y. (p, y) ∷ ws) (h same))))
    | inr (q, (before, (after, l, e))) ↦
        inr (q, ((p, r) ∷ before, (after, rw same l, ap (◌∷◌ (p, r)) e)))
  ]
  | inr other ↦ elim (last_at-cases key x ws old hs) [
    | inl (l, others) ↦ inl (rw other l, (other, others))
    | inr (q, (before, (after, l, e))) ↦
        inr (q, ((p, r) ∷ before, (after, rw other l, ap (◌∷◌ (p, r)) e)))
  ]
]

no_hints : (ws : Placements) → [] ≡ map hint_of ws → ws ≡ []
no_hints [] h = refl
no_hints (w ∷ ws) h = absurd (cc)

-- The first hint is that of the first record.
first_hint :
    (c : Bytes) (hs : List (Option (Bytes × ChunkPosition))) (ws : Placements)
    → decode_hint_record c ∷ hs ≡ map hint_of ws
    → (p : ChunkPosition) × ((r : LogRecord) × ((ws' : Placements) × (ws ≡ (p, r) ∷ ws')
          × (decode_hint_record c ≡ some (r.key, p))
          × (hs ≡ map hint_of ws')))
first_hint c hs [] h = absurd (cc)
first_hint c hs ((p, r) ∷ ws) h = (p, (r, (ws, refl, cc, cc)))

module _ (env : Env) where
  -- The index behind a Put of every record at its new position
  abbrev pub index_written : env.indexer.Index → Placements → env.indexer.Index
  index_written index [] = index
  index_written index ((p, r) ∷ ws) = index_written (env.indexer.put index r.key p).0 ws

  pub get-index_written :
      (ws : Placements) (index : env.indexer.Index) (key : Bytes)
      → env.indexer.get (index_written index ws) key ≡ last_at key ws (env.indexer.get index key)
  get-index_written [] index key = refl
  get-index_written ((p, r) ∷ ws) index key =
      get-index_written ws (env.indexer.put index r.key p).0 key
      ∙ ap (last_at key ws) (env.indexer.get-put index r.key key p)

  module _ (files : MergeWal env.wal) where
    open files use {reader}

    abbrev Loads :
        env.indexer.Index → Placements → Option (Option Error × env.indexer.Index) → Type 0
    Loads index ws out =
        ((e : Error) × ((i : env.indexer.Index) × (out ≡ some (some e, i))))
        ⊎ (out ≡ some (none, index_written index ws))

    hint_read :
        (fuel : ℕ) (rd : reader.Reader) (index : env.indexer.Index) (p q : ChunkPosition)
        (c : Bytes) (r : LogRecord)
        → (reader.next rd).1 ≡ chunk q c
        → decode_hint_record c ≡ some (r.key, p)
        → hint_loop env files (suc fuel) rd index
          ≡ hint_loop env files fuel (reader.next rd).0 (env.indexer.put index r.key p).0
    unfolding hint_loop
    hint_read fuel rd index p q c r e d = ground arith

    hint_end :
        (fuel : ℕ) (rd : reader.Reader) (index : env.indexer.Index)
        → (reader.next rd).1 ≡ end_of_log
        → hint_loop env files (suc fuel) rd index ≡ some (none, index)
    unfolding hint_loop
    hint_end fuel rd index e = ground arith

    -- With more fuel than hints, the loop ends: with an error, or with every hint in the index.
    pub hint_loop-Loads :
        (fuel : ℕ) (rd : reader.Reader) (cs : Chunks) (ws : Placements) (index : env.indexer.Index)
        → chunks_in (reader.segments rd) ≡ cs
        → length cs < fuel
        → hints cs ≡ map hint_of ws
        → Loads index ws (hint_loop env files fuel rd index)
    unfolding hint_loop
    hint_loop-Loads zero rd cs ws index s le h = absurd (omega arith)
    hint_loop-Loads (suc fuel) rd cs ws index s le h =
        elim (subst (Handed reader rd) s (next-Handed reader rd)) [
          | inl (x, e) ↦ inl (x, (index, ground (arith, e)))
          | inr (inl (none_left, e)) ↦
              (let empty = no_hints ws (ap hints (sym none_left) ∙ h) in
                inr (rw empty (hint_end fuel rd index e)))
          | inr (inr (p, (c, e, more))) ↦
              (let (q, (r, (ws', split, d, rest))) = first_hint c _ ws (ap hints (sym more) ∙ h) in
                let run = hint_read fuel rd index q p c r e d in
                rw (split, run)
                  (hint_loop-Loads fuel (reader.next rd).0 _ ws' (env.indexer.put index r.key q).0
                    refl (omega (arith, ap length more)) rest))
        ]
