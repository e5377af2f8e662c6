-- ===== src/Recovery/Reading.antt =====
-- What Next of a reader does, on the chunks that are left in all its segments.
use distributed_system_proje.Prelude.{
  ℕ, ◌≡◌, refl, ap, sym, ◌∙◌, Bytes, List, [], ◌∷◌, ◌++◌, ◌⊎◌, inl, inr,
}
use distributed_system_proje.Errors.{Error}
use distributed_system_proje.Record.{ChunkPosition}
use distributed_system_proje.Store.Log.{Chunks}
use distributed_system_proje.Recovery.Reader.{
  WalReader, Segment, ReadResult, chunk, end_of_log, broken, next_in, next_of, chunks_in,
}

-- What Next finds where these chunks are left
abbrev NextOf : Chunks → List Segment × ReadResult → Type 0
NextOf cs (left, end_of_log) = cs ≡ []
NextOf cs (left, broken e) = ⊥
NextOf cs (left, chunk p c) = cs ≡ (p, c) ∷ chunks_in left

next_in-NextOf :
    (id : ℕ) (ss : List Segment) (cs : Chunks)
    → NextOf (chunks_in ss) (next_of ss)
    → NextOf (cs ++ chunks_in ss) (next_in id cs (next_of ss) ss)
next_in-NextOf id ss [] h = h
next_in-NextOf id ss ((p, c) ∷ cs) h = refl

next_of-NextOf : (ss : List Segment) → NextOf (chunks_in ss) (next_of ss)
next_of-NextOf [] = refl
next_of-NextOf (s ∷ ss) = next_in-NextOf s.id ss s.chunks (next_of-NextOf ss)

-- Next fails, or it finds the end where no chunk is left, or it hands out the first of them.
abbrev pub Handed : (reader : WalReader) → reader.Reader → Chunks → Type 0
Handed reader r cs =
    ((e : Error) × ((reader.next r).1 ≡ broken e))
    ⊎ (((cs ≡ []) × ((reader.next r).1 ≡ end_of_log))
        ⊎ ((p : ChunkPosition) × ((c : Bytes) × ((reader.next r).1 ≡ chunk p c)
              × (cs ≡ (p, c) ∷ chunks_in (reader.segments (reader.next r).0)))))

module _ (reader : WalReader) (r : reader.Reader) where
  handed :
      (x : List Segment × ReadResult) (cs : Chunks)
      → NextOf cs x
      → reader.segments (reader.next r).0 ≡ x.0
      → (reader.next r).1 ≡ x.1
      → Handed reader r cs
  handed (left, end_of_log) cs f s e = inr (inl (f, e))
  handed (left, broken x) cs f s e = absurd f
  handed (left, chunk p c) cs f s e =
      inr (inr (p, (c, e, f ∙ ap (λ l. (p, c) ∷ chunks_in l) (sym s))))

  pub next-Handed : Handed reader r (chunks_in (reader.segments r))
  next-Handed = elim (reader.next-segments r) [
    | inl broken_at ↦ inl broken_at
    | inr (s, e) ↦
        handed (next_of (reader.segments r)) (chunks_in (reader.segments r))
          (next_of-NextOf (reader.segments r)) s e
  ]
