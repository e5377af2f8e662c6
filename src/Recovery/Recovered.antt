-- ===== src/Recovery/Recovered.antt =====
-- loadIndexFromWAL (db.go) rebuilds the index of the committed batches, and of no other batch.
use distributed_system_proje.Prelude.{
  length-drop, Bool, ℕ, zero, suc, ◌<◌, ◌≡◌, ◌≢◌, refl, ◌∙◌, Bytes, true, false, some, List, [],
  ◌∷◌, ◌++◌, arith, length, zip, drop, All,
}
use distributed_system_proje.Prelude.Int.{ℤ}
use distributed_system_proje.Record.{ChunkPosition}
use distributed_system_proje.Record.RoundTrip.{decode-record_header}
use distributed_system_proje.Store.{Env, ok}
use distributed_system_proje.Store.Log.{Chunks}
use distributed_system_proje.Batch.Commit.{end_record}
use distributed_system_proje.Batch.IndexLoop.{encoded}
use distributed_system_proje.Recovery.{records_of, Waiting, remove, index_waiting}
use distributed_system_proje.Recovery.Replay.{
  replay, replay-step, replay-records, waiting_records, append_all,
}
use distributed_system_proje.Recovery.History.{
  indexed, ending, Logged, IsLogged, IsHistory, NoneWaits, chunks_of, all_chunks, live_index,
  index_waiting-records, load-end, waiting-batch, waiting-other, waiting-removed,
}

zip-nil {ℓ κ} : {A : Type ℓ} {B : Type κ} (xs : List A) → zip {B = B} xs [] ≡ []
zip-nil [] = refl
zip-nil (x ∷ xs) = refl

drop-cons {ℓ} :
    {A : Type ℓ} (n : ℕ) (xs : List A)
    → n < length xs
    → (x : A) × ((ys : List A) × (drop n xs ≡ x ∷ ys))
drop-cons n [] h = absurd (omega arith)
drop-cons zero (x ∷ xs) h = (x, (xs, refl))
drop-cons (suc n) (x ∷ xs) h = drop-cons n xs (omega arith)

module _ (env : Env) where
  replay-end :
      (now : ℤ) (l : Logged) (p : ChunkPosition) (ps : List ChunkPosition) (more : Chunks)
      (index : env.indexer.Index) (m : Waiting)
      → IsLogged env now l
      → records_of l.id m ≡ waiting_records l.records l.positions
      → replay env now
          (zip (p ∷ ps) (encoded (end_record (env.id_bytes l.id) ∷ [])) ++ more)
          (index, m)
        ≡ replay env now more
            (index_waiting env index (waiting_records l.records l.positions), remove l.id m)
  replay-end now l p ps more index m h w =
      replay-step env now p _ (zip ps [] ++ more) (index, m)
        (index_waiting env index (waiting_records l.records l.positions), remove l.id m)
        (end_record (env.id_bytes l.id))
        (decode-record_header (end_record (env.id_bytes l.id)) h.end_fits)
        (load-end env now l.id p index m ∙ rw w refl)
      ∙ rw (zip-nil {B = Bytes} ps) refl

  -- What waits behind the chunks of a batch
  abbrev left_waiting : Bool → Logged → Waiting → Waiting
  left_waiting true l m = remove l.id (append_all l.id (waiting_records l.records l.positions) m)
  left_waiting false l m = append_all l.id (waiting_records l.records l.positions) m

  left_waiting-none :
      (whole : Bool) (l : Logged) (k : ℕ) (m : Waiting)
      → l.id ≢ k
      → records_of k m ≡ []
      → records_of k (left_waiting whole l m) ≡ []
  left_waiting-none true l k m d w =
      waiting-removed env l.id k _
        (waiting-other env l.id k (waiting_records l.records l.positions) m d w)
  left_waiting-none false l k m d w =
      waiting-other env l.id k (waiting_records l.records l.positions) m d w

  left_waiting-NoneWaits :
      (l : Logged) (m : Waiting) (ls : List Logged)
      → NoneWaits env m ls
      → All (λ k. l.id ≢ k.id) ls
      → NoneWaits env (left_waiting l.whole l m) ls
  left_waiting-NoneWaits l m [] w d = tt
  left_waiting-NoneWaits l m (k ∷ ls) (w, ws) (d, ds) =
      (left_waiting-none l.whole l k.id m d w, left_waiting-NoneWaits l m ls ws ds)

  abbrev index_after : Bool → Logged → env.indexer.Index → env.indexer.Index
  index_after true l index = index_waiting env index (waiting_records l.records l.positions)
  index_after false l index = index

  indexed-index_after :
      (whole : Bool) (now : ℤ) (l : Logged) (index : env.indexer.Index)
      → IsLogged env now l
      → indexed env whole l index ≡ some (index_after whole l index)
  indexed-index_after true now l index h =
      index_waiting-records env l.committed_at now l.id l.records l.positions index
        (omega (arith, h.placed)) h.plain h.fresh
  indexed-index_after false now l index h = refl

  replay-ending :
      (whole : Bool) (now : ℤ) (l : Logged) (ps : List ChunkPosition) (more : Chunks)
      (index : env.indexer.Index) (m : Waiting)
      → IsLogged env now l
      → 0 < length ps
      → records_of l.id m ≡ []
      → replay env now
          (zip ps (ending env whole l.id) ++ more)
          (index, append_all l.id (waiting_records l.records l.positions) m)
        ≡ replay env now more (index_after whole l index, left_waiting whole l m)
  replay-ending whole now l [] more index m h le w = absurd (omega arith)
  replay-ending true now l (p ∷ ps) more index m h le w =
      replay-end now l p ps more index _ h
        (waiting-batch env l.id (waiting_records l.records l.positions) m w)
  replay-ending false now l (p ∷ ps) more index m h le w = refl

  replay-Logged :
      (now : ℤ) (l : Logged) (more : Chunks) (index : env.indexer.Index) (m : Waiting)
      → IsLogged env now l
      → records_of l.id m ≡ []
      → replay env now (chunks_of env l ++ more) (index, m)
        ≡ replay env now more (index_after l.whole l index, left_waiting l.whole l m)
  replay-Logged now l more index m h w =
      replay-records env now l.id l.records l.positions (ending env l.whole l.id) more index m
        h.has_id (omega (arith, h.placed)) h.plain
      ∙ replay-ending l.whole now l (drop (length l.records) l.positions) more index m h
          (omega (arith, h.placed, length-drop (length l.records) l.positions)) w

  -- Replaying the chunks of a history of whole and torn batches onto an index, with nothing waiting
  -- for one of its ids, does not fail and ends with the index that the commits of the whole batches
  -- left.
  pub replay-History :
      (now : ℤ) (ls : List Logged) (index : env.indexer.Index) (m : Waiting)
      → IsHistory env now ls
      → NoneWaits env m ls
      → (index' : env.indexer.Index) × ((m' : Waiting) × ((live_index env ls index ≡ some index')
            × (replay env now (all_chunks env ls) (index, m) ≡ some (ok (index', m')))))
  unfolding replay
  replay-History now [] index m h w = (index, (m, (refl, refl)))
  replay-History now (l ∷ ls) index m (h, d, hs) (w, ws) =
      let (index', (m', (a, b))) =
        replay-History now ls (index_after l.whole l index) (left_waiting l.whole l m) hs
          (left_waiting-NoneWaits l m ls ws d) in
      (
        index',
        (
          m',
          (
            rw (indexed-index_after l.whole now l index h, live_index) a,
            replay-Logged now l (all_chunks env ls) index m h w ∙ b,
          ),
        ),
      )
