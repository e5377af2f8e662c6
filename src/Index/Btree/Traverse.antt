-- ===== src/Index/Btree/Traverse.antt =====
-- A walk with memoryBTreeIterator yields the items of the index in order.
use distributed_system_proje.Prelude.{
  ℕ, zero, suc, ◌<◌, ◌≡◌, refl, ap, sym, subst, append_assoc, ◌∙◌, Bool, true, false, not, ◌==◌,
  none, some, List, [], ◌∷◌, ◌++◌, arith, if◌then◌else◌, length, length-reverse, All, All-map,
  bytes_less_trans, bytes_less_irrefl,
}
use distributed_system_proje.Index.Item.{key_less, IsSorted, Item, item_less, keep, visit}
use distributed_system_proje.Index.Api.{BTree}
use distributed_system_proje.Index.Sorted.{
  IsSorted-split, IsSorted-reverse, keep-append, keep_nothing, keep_everything,
}
use distributed_system_proje.Index.Btree.Iterator.{
  Cursor, Iterator, new_iterator, next, drain, step_past, drop_invalid, past,
}
use mathlib.Core.List.{reverse, head?}

-- The order of a walk: ascending, or descending where `reverse` is set.
abbrev pub walk_less : Bool → Item → Item → Bool
walk_less reverse x y = if reverse then key_less y x else key_less x y

walk_less_irrefl : (r : Bool) (x : Item) → walk_less r x x ≡ false
walk_less_irrefl true x = bytes_less_irrefl x.key
walk_less_irrefl false x = bytes_less_irrefl x.key

walk_less_asym : (r : Bool) (x y : Item) → walk_less r x y ≡ true → walk_less r y x ≡ false
walk_less_asym true x y h =
    ground (arith, bytes_less_trans x.key y.key x.key, bytes_less_irrefl x.key)
walk_less_asym false x y h =
    ground (arith, bytes_less_trans x.key y.key x.key, bytes_less_irrefl x.key)

past-walk_less : (r : Bool) (c i : Item) → past r (some c) i ≡ walk_less r c i
unfolding item_less
past-walk_less true c i = refl
past-walk_less false c i = refl

-- Where the search of Next starts: at the current item, with what follows it.
keep_from :
    (r : Bool) (pre : List Item) (c : Item) (post : List Item)
    → IsSorted (walk_less r) (pre ++ (c ∷ post))
    → keep (λ x. not (walk_less r x c)) (pre ++ (c ∷ post)) ≡ c ∷ post
keep_from r pre c post h =
    let (before, after) = IsSorted-split (walk_less r) pre c post h in
    let p : Item → Bool = λ x. not (walk_less r x c) in
    keep-append p pre (c ∷ post)
    ∙ rw (keep_nothing p pre (All-map _ _ pre (λ x e. rw e) before)) (
        keep_everything p (c ∷ post) (
          rw (walk_less_irrefl r c) refl,
          All-map _ _ post (λ x e. rw (walk_less_asym r c x e)) after,
        ))

-- The cursor on the first item of a list, or past its end.
abbrev cursor_at : List Item → Cursor
cursor_at [] = record { current = none; valid = false }
cursor_at (x ∷ xs) = record { current = some x; valid = true }

visit-step_past :
    (r : Bool) (c : Item) (post : List Item)
    → All (λ y. walk_less r c y ≡ true) post
    → drop_invalid (visit (step_past r) (c ∷ post) (record { current = some c; valid = false }))
      ≡ cursor_at post
unfolding visit item_less
visit-step_past true c [] h = ground (arith, bytes_less_irrefl c.key)
visit-step_past false c [] h = ground (arith, bytes_less_irrefl c.key)
visit-step_past true c (y ∷ post) h = ground (arith, bytes_less_irrefl c.key, h.0)
visit-step_past false c (y ∷ post) h = ground (arith, bytes_less_irrefl c.key, h.0)

start_cursor :
    (n : ℕ) (l : List Item)
    → n ≡ length l
    → (if n == 0
        then record { current = none; valid = false }
        else record { current = head? l; valid = true })
      ≡ cursor_at l
start_cursor n [] e = rw e
start_cursor n (x ∷ l) e = ground arith

-- What Next does to the cursor, on the list that it searches.
step_from :
    (r : Bool) (l pre : List Item) (c : Item) (post : List Item)
    → l ≡ pre ++ (c ∷ post)
    → IsSorted (walk_less r) (pre ++ (c ∷ post))
    → drop_invalid (
        visit
          (step_past r)
          (keep (λ x. not (walk_less r x c)) l)
          (record { current = some c; valid = false }))
      ≡ cursor_at post
step_from r l pre c post e h =
    ap (λ z. drop_invalid (visit (step_past r) z (record { current = some c; valid = false })))
      (ap (keep (λ x. not (walk_less r x c))) e ∙ keep_from r pre c post h)
    ∙ visit-step_past r c post (IsSorted-split (walk_less r) pre c post h).1

module _ (b : BTree) where
  open b use {Tree}

  -- The items of a tree in the order of a walk.
  abbrev pub sequence : Bool → Tree → List Item
  sequence r t = if r then reverse (b.items t) else b.items t

  pub sequence-IsSorted :
      (r : Bool) (t : Tree) → IsSorted key_less (b.items t) → IsSorted (walk_less r) (sequence r t)
  sequence-IsSorted true t h = IsSorted-reverse key_less (b.items t) h
  sequence-IsSorted false t h = h

  abbrev pub at : Tree → Bool → List Item → Iterator b
  at t r xs = record { tree = some t; reverse = r; cursor = cursor_at xs }

  pub next-at :
      (t : Tree) (r : Bool) (pre : List Item) (c : Item) (post : List Item)
      → sequence r t ≡ pre ++ (c ∷ post)
      → IsSorted (walk_less r) (pre ++ (c ∷ post))
      → next b (at t r (c ∷ post)) ≡ some (at t r post)
  unfolding next
  next-at t true pre c post e h =
      rw
        (b.descend_less_or_equal-items Cursor t c (step_past true)
          (record { current = some c; valid = false }))
        (ap (λ z. some (record { tree = some t; reverse = true; cursor = z }))
          (step_from true _ pre c post e h))
  next-at t false pre c post e h =
      rw
        (b.ascend_greater_or_equal-items Cursor t c (step_past false)
          (record { current = some c; valid = false }))
        (ap (λ z. some (record { tree = some t; reverse = false; cursor = z }))
          (step_from false _ pre c post e h))

  drain-step :
      (fuel : ℕ) (t : Tree) (r : Bool) (c : Item) (it' : Iterator b) (rest : List Item)
      → next b (at t r (c ∷ [])) ≡ some it'
      → drain b fuel it' ≡ some rest
      → drain b (suc fuel) (at t r (c ∷ [])) ≡ some (c ∷ rest)
  unfolding drain
  drain-step fuel t r c it' rest h k = rw (h, k)

  drain-at :
      (fuel : ℕ) (t : Tree) (r : Bool) (pre post : List Item)
      → sequence r t ≡ pre ++ post
      → IsSorted (walk_less r) (pre ++ post)
      → length post < fuel
      → drain b fuel (at t r post) ≡ some post
  drain-at zero t r pre post e h k = absurd (omega arith)
  drain-at (suc fuel) t r pre [] e h k = unfold drain in refl
  drain-at (suc fuel) t r pre (c ∷ post) e h k =
      drain-step fuel t r c (at t r post) post (next-at t r pre c post e h) (
        drain-at fuel t r (pre ++ (c ∷ [])) post (e ∙ sym (append_assoc pre (c ∷ []) post))
          (subst (IsSorted (walk_less r)) (sym (append_assoc pre (c ∷ []) post)) h) (omega arith))

  pub new_iterator-at : (t : Tree) (r : Bool) → new_iterator b t r ≡ at (b.clone t) r (sequence r t)
  unfolding new_iterator
  new_iterator-at t true =
      ap (λ z. record { tree = some (b.clone t); reverse = true; cursor = z })
        (rw (b.max-items t) (
          start_cursor (b.len t) (reverse (b.items t))
            (b.len-items t ∙ sym (length-reverse (b.items t)))))
  new_iterator-at t false =
      ap (λ z. record { tree = some (b.clone t); reverse = false; cursor = z })
        (rw (b.min-items t) (start_cursor (b.len t) (b.items t) (b.len-items t)))

  -- On a tree in ascending order, reading and Next from a fresh iterator yield every item once, in
  -- ascending order, or in descending order where `reverse` is set, and then the iterator ends.
  pub drain-new_iterator :
      (t : Tree) (r : Bool) (fuel : ℕ)
      → IsSorted key_less (b.items t)
      → length (sequence r t) < fuel
      → drain b fuel (new_iterator b t r) ≡ some (sequence r t)
  drain-new_iterator t r fuel h k = rw (new_iterator-at t r) (
      drain-at fuel (b.clone t) r [] (sequence r t)
        (ap (λ l. if r then reverse l else l) (b.items-clone t)) (sequence-IsSorted r t h) k)
