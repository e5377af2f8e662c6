-- ===== src/Database/Scan.antt =====
-- The iterations of the database (db.go) against what Gets reply.
use distributed_system_proje.Prelude.{
  ◌≡◌, refl, ap, ◌∙◌, Bytes, Bool, true, false, not, ◌&&◌, Option, some, List, [], ◌∷◌, All,
  bytes_equal, bytes_less, bytes_equal-eq, bytes_equal_refl, bytes_less_irrefl, inl, inr,
  Bool-cases,
}
use distributed_system_proje.Prelude.Int.{ℤ}
use distributed_system_proje.Record.{ChunkPosition}
use distributed_system_proje.Index.Item.{
  Item, key_less, IsSorted, position_of, find_item, visit, keep,
}
use distributed_system_proje.Index.Sorted.{All-reverse}
use distributed_system_proje.Store.{Env, Db, RwLock, free, writing, reading}
use distributed_system_proje.Database.Iterate.{
  ValueHandler, under_read_lock, ascend, ascend_range, ascend_greater_or_equal, descend,
  descend_range, descend_less_or_equal,
}
use distributed_system_proje.Database.Held.{IsReady}
use distributed_system_proje.Database.Walk.{pair_visitor, live_pairs, Placed, visit_values}
use mathlib.Core.List.{reverse}

pub All-keep {ℓ κ} :
    {A : Type ℓ} (P : A → Type κ) (p : A → Bool) (xs : List A) → All P xs → All P (keep p xs)
unfolding keep
All-keep P p [] h = tt
All-keep P p (x ∷ xs) h = elim (Bool-cases (p x)) [
  | inl e ↦ rw e (h.0, All-keep P p xs h.1)
  | inr e ↦ rw e (All-keep P p xs h.1)
]

-- A smaller item in front hides none of the others.
find_item-later :
    (x : Item) (xs ys : List Item)
    → All (λ y. key_less x y ≡ true) ys
    → All (λ y. find_item y.key xs ≡ some y) ys
    → All (λ y. find_item y.key (x ∷ xs) ≡ some y) ys
unfolding find_item
find_item-later x xs [] h k = tt
find_item-later x xs (y ∷ ys) (h, hs) (k, ks) = elim (Bool-cases (bytes_equal y.key x.key)) [
  | inl same ↦ absurd (
      cc (
        h,
        ap (λ k. bytes_less x.key k) (bytes_equal-eq y.key x.key same),
        bytes_less_irrefl x.key,
      ))
  | inr other ↦ (rw other k, find_item-later x xs ys hs ks)
]

-- In a sorted list every item is found under its key.
find_item_self : (xs : List Item) → IsSorted key_less xs → All (λ x. find_item x.key xs ≡ some x) xs
find_item_self [] h = tt
find_item_self (x ∷ xs) (h, hs) = (
  unfold find_item in rw (bytes_equal_refl x.key) refl,
  find_item-later x xs xs h (find_item_self xs hs),
)

pub read_unlocked :
    {A : Type 0} (mu : RwLock) (out : Option A) → mu ≡ free → under_read_lock mu out ≡ out
read_unlocked free out e = refl
read_unlocked writing out e = absurd (cc)
read_unlocked (reading n) out e = refl

module _ (env : Env) where
  -- Every entry of the index has a position.
  abbrev pub HasPositions : Db env → Type 0
  HasPositions db = All (λ x. (p : ChunkPosition) × (x.pos ≡ some p)) (env.indexer.entries db.index)

  placed :
      (db : Db env) (xs : List Item)
      → All (λ x. (p : ChunkPosition) × (x.pos ≡ some p)) xs
      → All (λ x. find_item x.key (env.indexer.entries db.index) ≡ some x) xs
      → All (Placed env db) xs
  placed db [] h k = tt
  placed db (x ∷ xs) ((p, e), h) (k, ks) =
      ((p, e, env.indexer.get-entries db.index x.key ∙ ap position_of k ∙ e), placed db xs h ks)

  pub entries-Placed :
      (db : Db env) → HasPositions db → All (Placed env db) (env.indexer.entries db.index)
  entries-Placed db h = placed db _ h (find_item_self _ (env.indexer.entries-IsSorted db.index))

  -- On a ready database whose entries have positions, no value iteration panics, and each hands its
  -- caller, until that one stops or errs, the pairs that Gets find at the time of the visit: Ascend
  -- and Descend all of them, in the order of the keys and against it; AscendRange those from the start
  -- key on and below the end key, DescendRange those from the start key down and above the end key;
  -- AscendGreaterOrEqual and DescendLessOrEqual those from their key on, upwards and downwards.
  pub iterations_visit-live_pairs :
      {S : Type 0} (db : Db env) (clock : Bytes → ℤ) (f : ValueHandler S) (s : S) (from to : Bytes)
      → IsReady env db
      → HasPositions db
      → (ascend env db clock f s
          ≡ some
              (visit (pair_visitor f) (live_pairs env db clock (env.indexer.entries db.index)) s))
        × (ascend_range env db clock from to f s
            ≡ some (
                visit
                  (pair_visitor f)
                  (live_pairs env db clock (
                    keep
                      (λ x. not (bytes_less x.key from) && bytes_less x.key to)
                      (env.indexer.entries db.index)))
                  s))
        × (ascend_greater_or_equal env db clock from f s
            ≡ some (
                visit
                  (pair_visitor f)
                  (live_pairs env db clock
                    (keep (λ x. not (bytes_less x.key from)) (env.indexer.entries db.index)))
                  s))
        × (descend env db clock f s
            ≡ some (
                visit
                  (pair_visitor f)
                  (live_pairs env db clock (reverse (env.indexer.entries db.index)))
                  s))
        × (descend_range env db clock from to f s
            ≡ some (
                visit
                  (pair_visitor f)
                  (live_pairs env db clock (
                    keep
                      (λ x. not (bytes_less from x.key) && bytes_less to x.key)
                      (reverse (env.indexer.entries db.index))))
                  s))
        × (descend_less_or_equal env db clock from f s
            ≡ some (
                visit
                  (pair_visitor f)
                  (live_pairs env db clock (
                    keep
                      (λ x. not (bytes_less from x.key))
                      (reverse (env.indexer.entries db.index))))
                  s))
  unfolding ascend ascend_range ascend_greater_or_equal descend descend_range descend_less_or_equal
  iterations_visit-live_pairs {S} db clock f s from to ready h =
      let up = entries-Placed db h in
      let down = All-reverse (Placed env db) (env.indexer.entries db.index) up in
      let i = db.index in
      let unlocked = λ (out : Option S). read_unlocked db.mu out ready.unlocked in
      let all = λ (quiet : Bool). visit_values env db clock quiet f ready.sound in
      (
        (unlocked _ ∙ env.indexer.ascend-entries (Option S) i _ (some s) ∙ all false _ s up),
        (unlocked _
            ∙ env.indexer.ascend_range-entries (Option S) i from to _ (some s)
            ∙ all true _ s (All-keep _ _ _ up)),
        (unlocked _
            ∙ env.indexer.ascend_greater_or_equal-entries (Option S) i from _ (some s)
            ∙ all true _ s (All-keep _ _ _ up)),
        (unlocked _ ∙ env.indexer.descend-entries (Option S) i _ (some s) ∙ all true _ s down),
        (unlocked _
            ∙ env.indexer.descend_range-entries (Option S) i from to _ (some s)
            ∙ all true _ s (All-keep _ _ _ down)),
        (unlocked _
            ∙ env.indexer.descend_less_or_equal-entries (Option S) i from _ (some s)
            ∙ all true _ s (All-keep _ _ _ down)),
      )
