-- ===== src/Merge/Loop.antt =====
-- The loop of doMerge (merge.go): it rewrites all that it is to keep.
use distributed_system_proje.Prelude.{
  All-right, All-left, ℕ, zero, suc, ◌<◌, ◌≡◌, refl, ap, sym, ◌∙◌, Bytes, Bool, true, false, none,
  some, List, [], ◌∷◌, ◌++◌, arith, All, length, if◌then◌else◌, inl, inr, Bool-cases, subst,
}
use distributed_system_proje.Prelude.Int.{ℤ}
use distributed_system_proje.Record.{LogRecord, ChunkPosition, decode_log_record}
use distributed_system_proje.Record.RoundTrip.{IsEncodable}
use distributed_system_proje.Store.{Env}
use distributed_system_proje.Store.Log.{Chunks}
use distributed_system_proje.Recovery.Reader.{chunks_in, chunk}
use distributed_system_proje.Recovery.Reading.{Handed, next-Handed}
use distributed_system_proje.Merge.{
  end_of_log, MergeDb, rewrite_record, rewrite_chunk, rewrite_loop,
}
use distributed_system_proje.Merge.Files.{MergeWal}
use distributed_system_proje.Merge.Rewrite.{
  cleared, Decodes, survives, survivor, survivors, Rewrites, rewrite_record-Rewrites, nil-Rewritten,
  append-Rewritten,
}

module _ (env : Env) (files : MergeWal env.wal) where
  open files use {reader}

  module _ (index_at : ChunkPosition → env.indexer.Index) (now : ℤ) where
    chunk_kept :
        (m : MergeDb env files) (p : ChunkPosition) (c : Bytes) (r : LogRecord)
        → decode_log_record c ≡ some r
        → survives env index_at now p r ≡ true
        → rewrite_chunk env files (index_at p) now p c m ≡ rewrite_record env files m r
    unfolding rewrite_chunk
    chunk_kept m p c r d e = ground arith

    chunk_passed :
        (m : MergeDb env files) (p : ChunkPosition) (c : Bytes) (r : LogRecord)
        → decode_log_record c ≡ some r
        → survives env index_at now p r ≡ false
        → rewrite_chunk env files (index_at p) now p c m ≡ some (none, m)
    unfolding rewrite_chunk
    chunk_passed m p c r d e = ground arith

    abbrev kept_if : Bool → LogRecord → List LogRecord
    kept_if keeps r = if keeps then cleared r ∷ [] else []

    rewrite_chunk-Rewrites :
        (m : MergeDb env files) (p : ChunkPosition) (c : Bytes) (r : LogRecord)
        → decode_log_record c ≡ some r
        → All IsEncodable (survivor env index_at now (some r) p [])
        → Rewrites env files m
            (survivor env index_at now (some r) p [])
            (rewrite_chunk env files (index_at p) now p c m)
    rewrite_chunk-Rewrites m p c r d v = elim (Bool-cases (survives env index_at now p r)) [
      | inl yes_it ↦
          (let v' = subst (λ b. All IsEncodable (kept_if b r)) yes_it v in
            rw (chunk_kept m p c r d yes_it) (
              subst (λ b. Rewrites env files m (kept_if b r) (rewrite_record env files m r))
                (sym yes_it) (rewrite_record-Rewrites env files m r v'.0)))
      | inr no_it ↦ rw (chunk_passed m p c r d no_it) (
          subst (λ b. Rewrites env files m (kept_if b r) (some (none, m))) (sym no_it)
            (inr (m, (refl, nil-Rewritten env files m))))
    ]

    survivors-cons :
        (p : ChunkPosition) (c : Bytes) (cs : Chunks) (r : LogRecord)
        → decode_log_record c ≡ some r
        → survivors env index_at now ((p, c) ∷ cs)
          ≡ survivor env index_at now (some r) p [] ++ survivors env index_at now cs
    unfolding survivors
    survivors-cons p c cs r d = ground arith

    -- The loop behind a chunk, given what the chunk comes to
    loop_behind :
        (fuel : ℕ) (m : MergeDb env files) (rd : reader.Reader) (p : ChunkPosition) (c : Bytes)
        (rs rs' : List LogRecord)
        → (reader.next rd).1 ≡ chunk p c
        → Rewrites env files m rs (rewrite_chunk env files (index_at p) now p c m)
        → ((m' : MergeDb env files)
            → Rewrites env files m' rs'
                (rewrite_loop env files fuel index_at now (reader.next rd).0 m'))
        → Rewrites env files m (rs ++ rs') (rewrite_loop env files (suc fuel) index_at now rd m)
    unfolding rewrite_loop
    loop_behind fuel m rd p c rs rs' e (inl (x, (m', out))) go =
        inl (x, (m', ground (arith, e, out)))
    loop_behind fuel m rd p c rs rs' e (inr (m', (out, w))) go =
        let run : rewrite_loop env files (suc fuel) index_at now rd m
            ≡ rewrite_loop env files fuel index_at now (reader.next rd).0 m' =
          ground (arith, e, out) in
        elim (go m') [
          | inl (x, (m'', out')) ↦ inl (x, (m'', run ∙ out'))
          | inr (m'', (out', w')) ↦
              inr (m'', (run ∙ out', append-Rewritten env files m m' m'' rs rs' w w'))
        ]

    loop_read :
        (fuel : ℕ) (m : MergeDb env files) (rd : reader.Reader) (p : ChunkPosition) (c : Bytes)
        (cs : Chunks)
        → (reader.next rd).1 ≡ chunk p c
        → Decodes ((p, c) ∷ cs)
        → All IsEncodable (survivors env index_at now ((p, c) ∷ cs))
        → ((m' : MergeDb env files)
            → All IsEncodable (survivors env index_at now cs)
            → Rewrites env files m'
                (survivors env index_at now cs)
                (rewrite_loop env files fuel index_at now (reader.next rd).0 m'))
        → Rewrites env files m
            (survivors env index_at now ((p, c) ∷ cs))
            (rewrite_loop env files (suc fuel) index_at now rd m)
    loop_read fuel m rd p c cs e ((r, d), ds) v go =
        let split = survivors-cons p c cs r d in
        let v' = subst (All IsEncodable) split v in
        let kept = survivor env index_at now (some r) p [] in
        rw split (
          loop_behind fuel m rd p c kept (survivors env index_at now cs) e
            (rewrite_chunk-Rewrites m p c r d (All-left IsEncodable kept _ v'))
            (λ m'. go m' (All-right IsEncodable kept _ v')))

    loop_end :
        (fuel : ℕ) (m : MergeDb env files) (rd : reader.Reader)
        → (reader.next rd).1 ≡ end_of_log
        → rewrite_loop env files (suc fuel) index_at now rd m ≡ some (none, m)
    unfolding rewrite_loop
    loop_end fuel m rd e = ground arith

    -- With more fuel than chunks, the loop ends: with an error, or with all survivors rewritten.
    pub rewrite_loop-Rewrites :
        (fuel : ℕ) (m : MergeDb env files) (rd : reader.Reader) (cs : Chunks)
        → chunks_in (reader.segments rd) ≡ cs
        → length cs < fuel
        → Decodes cs
        → All IsEncodable (survivors env index_at now cs)
        → Rewrites env files m
            (survivors env index_at now cs)
            (rewrite_loop env files fuel index_at now rd m)
    unfolding rewrite_loop survivors
    rewrite_loop-Rewrites zero m rd cs s le d v = absurd (omega arith)
    rewrite_loop-Rewrites (suc fuel) m rd cs s le d v =
        elim (subst (Handed reader rd) s (next-Handed reader rd)) [
          | inl (x, e) ↦ inl (x, (m, ground (arith, e)))
          | inr (inl (none_left, e)) ↦
              rw none_left (inr (m, (loop_end fuel m rd e, nil-Rewritten env files m)))
          | inr (inr (p, (c, e, more))) ↦
              (let left = chunks_in (reader.segments (reader.next rd).0) in
                subst
                  (λ cs.
                    Rewrites env files m (survivors env index_at now cs)
                      (rewrite_loop env files (suc fuel) index_at now rd m))
                  (sym more)
                  (loop_read fuel m rd p c left e (subst Decodes more d)
                    (subst (λ cs. All IsEncodable (survivors env index_at now cs)) more v)
                    (λ m' v'.
                      rewrite_loop-Rewrites fuel m' (reader.next rd).0 left refl
                        (omega (arith, ap length more)) (subst Decodes more d).1 v')))
        ]
