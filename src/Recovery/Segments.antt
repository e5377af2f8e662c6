-- ===== src/Recovery/Segments.antt =====
-- The loop of loadIndexFromWAL (db.go) over the segments of a log: those that a merge replaced are
-- skipped, and the chunks of the others are read one by one.
use distributed_system_proje.Prelude.{
  subst, Option-cases, leb, ℕ, zero, suc, ◌+◌, ◌≤◌, ◌<◌, ◌≡◌, refl, ap, sym, ◌∙◌, Bytes, false,
  Option, none, some, List, [], ◌∷◌, ◌++◌, arith, length, All, ◌⊎◌, inl, inr,
}
use distributed_system_proje.Prelude.Int.{ℤ}
use distributed_system_proje.Errors.{Error}
use distributed_system_proje.Record.{ChunkPosition, decode_log_record}
use distributed_system_proje.Store.{Env, Reply, ok, err}
use distributed_system_proje.Store.Log.{Chunks}
use distributed_system_proje.Recovery.{Loading, load_record, load_loop, load_index_from_wal}
use distributed_system_proje.Recovery.Reader.{
  WalReader, Segment, ReadResult, chunk, end_of_log, broken, first_id, rest_of, next_in, next_of,
  chunks_in,
}
use distributed_system_proje.Recovery.Replay.{replay}
use distributed_system_proje.Recovery.History.{
  none_waits, Logged, IsHistory, all_chunks, live_index,
}
use distributed_system_proje.Recovery.Recovered.{replay-History}

pub Reply-cases {ℓ} :
    {A : Type ℓ} (r : Reply A) → ((a : A) × (r ≡ ok a)) ⊎ ((e : Error) × (r ≡ err e))
Reply-cases (ok a) = inl (a, refl)
Reply-cases (err e) = inr (e, refl)

-- What Next finds where these chunks are left, behind the segments of a merge
abbrev Found : ℕ → Chunks → List Segment × ReadResult → Type 0
Found fin cs (left, end_of_log) = cs ≡ []
Found fin cs (left, broken e) = ⊥
Found fin cs (left, chunk p c) =
    (cs ≡ (p, c) ∷ chunks_in left) × (0 < length left) × All (λ s. fin < s.id) left

next_in-Found :
    (fin : ℕ) (s : Segment) (ss : List Segment) (cs : Chunks)
    → fin < s.id
    → All (λ s. fin < s.id) ss
    → Found fin (chunks_in ss) (next_of ss)
    → Found fin (cs ++ chunks_in ss) (next_in s.id cs (next_of ss) ss)
next_in-Found fin s ss [] h hs f = f
next_in-Found fin s ss ((p, c) ∷ cs) h hs f = (refl, omega arith, (h, hs))

next_of-Found :
    (fin : ℕ) (ss : List Segment) → All (λ s. fin < s.id) ss → Found fin (chunks_in ss) (next_of ss)
next_of-Found fin [] h = refl
next_of-Found fin (s ∷ ss) (h, hs) = next_in-Found fin s ss s.chunks h hs (next_of-Found fin ss hs)

module _ (env : Env) (reader : WalReader) where
  -- The loop, given what is left of the log and what Next answered
  abbrev loop_with :
      ℕ → ℤ → ℕ → Loading env → reader.Reader × ReadResult → Option (Reply (Loading env))
  loop_with fuel now fin st (r, end_of_log) = some (ok st)
  loop_with fuel now fin st (r, broken e) = some (err e)
  loop_with fuel now fin st (r, chunk position bytes) = elim (decode_log_record bytes) [
    | none ↦ none
    | some log_record ↦ (elim (load_record env now log_record position st) [
      | err e ↦ some (err e)
      | ok st' ↦ load_loop env reader fuel now fin r st'
    ])
  ]

  load_loop-next :
      (fuel : ℕ) (now : ℤ) (fin id : ℕ) (r : reader.Reader) (st : Loading env) (result : ReadResult)
      → reader.current_segment_id r ≡ some id
      → fin < id
      → (reader.next r).1 ≡ result
      → load_loop env reader (suc fuel) now fin r st
        ≡ loop_with fuel now fin st ((reader.next r).0, result)
  unfolding load_loop
  load_loop-next fuel now fin id r st end_of_log c h e = rw (c, load_loop) (ground arith)
  load_loop-next fuel now fin id r st (broken x) c h e = rw (c, load_loop) (ground arith)
  load_loop-next fuel now fin id r st (chunk p b) c h e =
      let later_segment : leb id fin ≡ false = ground arith in
      rw (c, load_loop, later_segment, e) refl

  load_loop-skip :
      (fuel : ℕ) (now : ℤ) (fin id : ℕ) (r : reader.Reader) (st : Loading env)
      → reader.current_segment_id r ≡ some id
      → id ≤ fin
      → load_loop env reader (suc fuel) now fin r st
        ≡ load_loop env reader fuel now fin (reader.skip_current_segment r) st
  unfolding load_loop
  load_loop-skip fuel now fin id r st c h = rw (c, load_loop) (ground arith)

  abbrev ReadsAll : Chunks → ℤ → Loading env → Option (Reply (Loading env)) → Type 0
  ReadsAll cs now st out = ((e : Error) × (out ≡ some (err e))) ⊎ (out ≡ replay env now cs st)

  -- What the loop answers from a reader with these segments left
  abbrev ReadsFrom : ℕ → ℤ → ℕ → Type 0
  ReadsFrom fuel now fin =
      (r : reader.Reader) (ss : List Segment) (st : Loading env)
      → reader.segments r ≡ ss
      → 0 < length ss
      → All (λ s. fin < s.id) ss
      → length (chunks_in ss) < fuel
      → ReadsAll (chunks_in ss) now st (load_loop env reader fuel now fin r st)

  reads-chunk :
      (fuel : ℕ) (now : ℤ) (fin : ℕ) (st : Loading env) (r : reader.Reader) (left : List Segment)
      (p : ChunkPosition) (c : Bytes)
      → ReadsFrom fuel now fin
      → reader.segments r ≡ left
      → 0 < length left
      → All (λ s. fin < s.id) left
      → length (chunks_in left) < fuel
      → ReadsAll ((p, c) ∷ chunks_in left) now st (loop_with fuel now fin st (r, chunk p c))
  unfolding replay
  reads-chunk fuel now fin st r left p c go s n h le = elim (Option-cases (decode_log_record c)) [
    | inl d ↦ inr (rw (d, loop_with, replay) refl)
    | inr (log_record, d) ↦ elim (Reply-cases (load_record env now log_record p st)) [
      | inl (st', l) ↦
          (let same : replay env now ((p, c) ∷ chunks_in left) st
                ≡ replay env now (chunks_in left) st' =
              rw (d, replay) (rw l refl) in
            elim (go r left st' s n h le) [
              | inl (e, o) ↦ inl (e, rw (d, l, loop_with) o)
              | inr o ↦ inr (rw (d, l, loop_with) o ∙ sym same)
            ])
      | inr (e, l) ↦ inl (e, rw (d, l, loop_with) refl)
    ]
  ]

  reads-Found :
      (fuel : ℕ) (now : ℤ) (fin : ℕ) (st : Loading env) (cs : Chunks)
      (x : List Segment × ReadResult) (r : reader.Reader)
      → ReadsFrom fuel now fin
      → Found fin cs x
      → reader.segments r ≡ x.0
      → length cs ≤ fuel
      → ReadsAll cs now st (loop_with fuel now fin st (r, x.1))
  unfolding replay
  reads-Found fuel now fin st cs (left, end_of_log) r go f s le = inr (rw f refl)
  reads-Found fuel now fin st cs (left, broken e) r go f s le = absurd f
  reads-Found fuel now fin st cs (left, chunk p c) r go (f, n, h) s le =
      subst (λ cs. ReadsAll cs now st (loop_with fuel now fin st (r, chunk p c))) (sym f)
        (reads-chunk fuel now fin st r left p c go s n h (omega (arith, ap length f)))

  reads-from : (fuel : ℕ) (now : ℤ) (fin : ℕ) → ReadsFrom fuel now fin
  reads-from fuel now fin r [] st s n h le = absurd (omega arith)
  reads-from zero now fin r (g ∷ ss) st s n h le = absurd (omega arith)
  reads-from (suc fuel) now fin r (g ∷ ss) st s n (h, hs) le =
      let c : reader.current_segment_id r ≡ some g.id = reader.current-segments r ∙ ap first_id s in
      elim (reader.next-segments r) [
        | inl (e, q) ↦ inl (e, load_loop-next fuel now fin g.id r st (broken e) c h q)
        | inr (left, q) ↦
            subst (ReadsAll (chunks_in (g ∷ ss)) now st)
              (sym (
                load_loop-next fuel now fin g.id r st (next_of (g ∷ ss)).1 c h
                  (q ∙ ap (λ x. (next_of x).1) s)))
              (reads-Found fuel now fin st (chunks_in (g ∷ ss)) (next_of (g ∷ ss)) (reader.next r).0
                (reads-from fuel now fin) (next_of-Found fin (g ∷ ss) (h, hs))
                (left ∙ ap (λ x. (next_of x).0) s) (omega arith))
      ]

  -- From a reader with some segments up to `fin` and then others above it, at least one of these, and
  -- with more fuel than there are skipped segments and chunks of the others, the loop ends with an
  -- error of a read or with what replaying the chunks of the others gives.
  pub load_loop-replay :
      (fuel : ℕ) (now : ℤ) (fin : ℕ) (r : reader.Reader) (merged ss : List Segment)
      (st : Loading env)
      → reader.segments r ≡ merged ++ ss
      → All (λ s. s.id ≤ fin) merged
      → All (λ s. fin < s.id) ss
      → 0 < length ss
      → length merged + length (chunks_in ss) < fuel
      → ReadsAll (chunks_in ss) now st (load_loop env reader fuel now fin r st)
  load_loop-replay fuel now fin r [] ss st s l h n le =
      reads-from fuel now fin r ss st s n h (omega arith)
  load_loop-replay zero now fin r (g ∷ merged) ss st s l h n le = absurd (omega arith)
  load_loop-replay (suc fuel) now fin r (g ∷ merged) ss st s (l, ls) h n le =
      subst (ReadsAll (chunks_in ss) now st)
        (sym (load_loop-skip fuel now fin g.id r st (reader.current-segments r ∙ ap first_id s) l))
        (load_loop-replay fuel now fin (reader.skip_current_segment r) merged ss st
          (reader.skip-segments r ∙ ap rest_of s) ls h n (omega arith))

  -- When a database is opened, loading the index from a log whose segments behind the last merge, one
  -- at least, hold the chunks of a history of whole and torn batches, with distinct ids and with no
  -- record that has expired, ends, with more fuel than there are segments of the merge and chunks
  -- behind them: with the error of a read, or with the index that the commits of the whole batches
  -- had left. A torn batch leaves no trace, and the segments that the merge replaced are skipped.
  pub load_index_from_wal-recovers :
      (fuel : ℕ) (now : ℤ) (fin : ℕ) (r : reader.Reader) (index : env.indexer.Index)
      (merged ss : List Segment) (history : List Logged)
      → reader.segments r ≡ merged ++ ss
      → All (λ s. s.id ≤ fin) merged
      → All (λ s. fin < s.id) ss
      → 0 < length ss
      → length merged + length (chunks_in ss) < fuel
      → IsHistory env now history
      → chunks_in ss ≡ all_chunks env history
      → ((e : Error) × (load_index_from_wal env reader fuel now (ok fin) r index ≡ some (err e)))
        ⊎ ((index' : env.indexer.Index) × (live_index env history index ≡ some index')
            × (load_index_from_wal env reader fuel now (ok fin) r index ≡ some (ok index')))
  unfolding load_index_from_wal
  load_index_from_wal-recovers fuel now fin r index merged ss history s l h n le hist same =
      let (index', (m', (live, out))) =
        replay-History env now history index [] hist (none_waits env history) in
      elim (load_loop-replay fuel now fin r merged ss (index, []) s l h n le) [
        | inl (e, o) ↦ inl (e, rw o refl)
        | inr o ↦
            (let loaded : load_loop env reader fuel now fin r (index, []) ≡ some (ok (index', m')) =
                o ∙ ap (λ cs. replay env now cs (index, [])) same ∙ out in
              inr (index', live, rw loaded refl))
      ]
