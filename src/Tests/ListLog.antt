-- ===== src/Tests/ListLog.antt =====
-- A log for the tests: its chunks in order, each at its number, and the cached ones.
use distributed_system_proje.Prelude.{
  ℕ, suc, ◌+◌, ◌≤◌, ◌≡◌, refl, ap, sym, ◌∙◌, Bytes, none, List, [], ◌∷◌, ◌++◌, arith, ◌==◌,
  if◌then◌else◌, length, zip,
}
use distributed_system_proje.Prelude.Int.{pos}
use distributed_system_proje.Errors.{Error, err_key_not_found}
use distributed_system_proje.Record.{ChunkPosition}
use distributed_system_proje.Store.Log.{Wal, Chunks, LogReply, answer, failed}

abbrev pub place : ℕ → ChunkPosition
place n = record { segment_id = n; block_number = 0; chunk_offset = pos 0; chunk_size = 0 }

abbrev pub numbered : ℕ → List Bytes → Chunks
numbered n [] = []
numbered n (c ∷ cs) = (place n, c) ∷ numbered (suc n) cs

abbrev pub places : ℕ → List Bytes → List ChunkPosition
places n [] = []
places n (c ∷ cs) = place n ∷ places (suc n) cs

abbrev pub read_from : ℕ → List Bytes → ℕ → LogReply Bytes
read_from n [] k = failed err_key_not_found
read_from n (c ∷ cs) k = if k == n then answer c else read_from (suc n) cs k

zip-places : (n : ℕ) (cs : List Bytes) → zip (places n cs) cs ≡ numbered n cs
zip-places n [] = refl
zip-places n (c ∷ cs) = ap (◌∷◌ (place n, c)) (zip-places (suc n) cs)

length-places : (n : ℕ) (cs : List Bytes) → length (places n cs) ≡ length cs
length-places n [] = refl
length-places n (c ∷ cs) = ap suc (length-places (suc n) cs)

pub numbered-append :
    (n : ℕ) (cs ds : List Bytes)
    → numbered n (cs ++ ds) ≡ numbered n cs ++ numbered (n + length cs) ds
numbered-append n [] ds = ap (λ k. numbered k ds) (omega arith)
numbered-append n (c ∷ cs) ds =
    ap (◌∷◌ (place n, c))
      (numbered-append (suc n) cs ds ∙ ap (λ k. numbered (suc n) cs ++ numbered k ds) (omega arith))

numbered-le :
    (n : ℕ) (cs : List Bytes) (pre : Chunks) (p : ChunkPosition) (c : Bytes) (post : Chunks)
    → numbered n cs ≡ pre ++ ((p, c) ∷ post)
    → n ≤ p.segment_id
numbered-le n [] [] p c post h = absurd (cc)
numbered-le n [] (x ∷ pre) p c post h = absurd (cc)
numbered-le n (d ∷ cs) [] p c post h = ground arith
numbered-le n (d ∷ cs) (x ∷ pre) p c post h =
    omega (arith, numbered-le (suc n) cs pre p c post (cc))

pub read_from-numbered :
    (n : ℕ) (cs : List Bytes) (pre : Chunks) (p : ChunkPosition) (c : Bytes) (post : Chunks)
    → numbered n cs ≡ pre ++ ((p, c) ∷ post)
    → read_from n cs p.segment_id ≡ answer c
read_from-numbered n [] [] p c post h = absurd (cc)
read_from-numbered n [] (x ∷ pre) p c post h = absurd (cc)
read_from-numbered n (d ∷ cs) [] p c post h = ground (arith)
read_from-numbered n (d ∷ cs) (x ∷ pre) p c post h = ground (
  arith,
  read_from-numbered (suc n) cs pre p c post (cc),
  numbered-le (suc n) cs pre p c post (cc),
)

pub record ListLog : Type 0 where
  pub stored : List Bytes
  pub cache : List Bytes

abbrev pub written : ListLog → ListLog × LogReply (List ChunkPosition)
written l =
    (record { stored = l.stored ++ l.cache; cache = [] }, answer (places (length l.stored) l.cache))

abbrev written_at : LogReply (List ChunkPosition) → List ChunkPosition
written_at (answer ps) = ps
written_at (failed e) = []

pub write_all_lem :
    (l l' : ListLog) (ps : List ChunkPosition)
    → written l ≡ (l', answer ps)
    → (numbered 0 l'.stored ≡ numbered 0 l.stored ++ zip ps l.cache)
      × (length ps ≡ length l.cache)
      × (l'.cache ≡ [])
write_all_lem l l' ps h = (
  ap (λ x. numbered 0 x) stored_eq
      ∙ numbered-append 0 l.stored l.cache
      ∙ ap (λ x. numbered 0 l.stored ++ x)
          (ap (λ k. numbered k l.cache) (omega arith)
            ∙ sym (zip-places (length l.stored) l.cache)
            ∙ ap (λ x. zip x l.cache) (sym ps_eq)),
  ap (λ x. length x) ps_eq ∙ length-places (length l.stored) l.cache,
  sym (ap (λ x. x.0.cache) h),
)
  where
    stored_eq : l'.stored ≡ l.stored ++ l.cache
    stored_eq = sym (ap (λ x. x.0.stored) h)

    ps_eq : ps ≡ places (length l.stored) l.cache
    ps_eq = sym (ap (λ x. written_at x.1) h)

pub write_all_answers :
    (l l' : ListLog) (e : Error)
    → written l ≡ (l', failed e)
    → numbered 0 l'.stored ≡ numbered 0 l.stored
write_all_answers l l' e h = absurd (cc)

abbrev pub list_wal : Wal
list_wal = record {
  Log = ListLog;
  chunks = λ l. numbered 0 l.stored;
  pending = λ l. l.cache;
  pending_writes = λ l c. record l { cache = l.cache ++ (c ∷ []) };
  clear_pending_writes = λ l. record l { cache = [] };
  write_all = written;
  sync = λ l. (l, none);
  read = λ l p. read_from 0 l.stored p.segment_id;
  pending-pending_writes = λ l c. refl;
  chunks-pending_writes = λ l c. refl;
  pending-clear = λ l. refl;
  chunks-clear = λ l. refl;
  chunks-sync = λ l. refl;
  pending-sync = λ l. refl;
  chunks-write_all = write_all_lem;
  chunks-write_all_failed = write_all_answers;
  read-chunks = λ l pre p c post h. read_from-numbered 0 l.stored pre p c post h;
}

abbrev pub empty_log : ListLog
empty_log = record { stored = []; cache = [] }
