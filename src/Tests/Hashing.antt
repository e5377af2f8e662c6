-- ===== src/Tests/Hashing.antt =====
-- The ring of sharding/consistent_hash.go at concrete inputs.
use distributed_system_proje.Prelude.{
  ℕ, zero, suc, ◌+◌, ◌*◌, ◌≤◌, ◌<◌, ◌≡◌, ◌≢◌, ◌⊎◌, refl, ap, ◌∙◌, Bytes, some, List, [], ◌∷◌, ◌||◌,
  arith, ltb, leb, if◌then◌else◌, length, take, drop, All, All-map, inl, inr, Bool-cases, ◌==◌,
}
use distributed_system_proje.Sharding.{
  is_empty, add_virtual, add_nodes, Helpers, ConsistentHashRing, IsAscending, mem, new, add_node,
  remove_node, get_node, node_at, node_or_empty,
}
use distributed_system_proje.Sharding.Clockwise.{Clockwise, get_node-Clockwise}
use distributed_system_proje.Sharding.Adding.{IsRing, new-IsRing, add_node-IsRing, add_node-moves}
use distributed_system_proje.Sharding.Removal.{IsDistinct}
use distributed_system_proje.Sharding.Collision.{removal_takes_both}
use distributed_system_proje.Sharding.Leaving.{remove_node-keeps, remove_node-leaves}

-- Sorting by insertion, and a search from the front
unfoldable pub insert : ℕ → List ℕ → List ℕ
insert k [] = k ∷ []
insert k (x ∷ xs) = let rest = insert k xs in if leb k x then k ∷ x ∷ xs else x ∷ rest

unfoldable pub sort : List ℕ → List ℕ
unfolding insert
sort [] = []
sort (x ∷ xs) = insert x (sort xs)

unfoldable pub search_from : List ℕ → ℕ → ℕ
search_from [] x = 0
search_from (y ∷ ys) x = let rest = search_from ys x in if ltb y x then suc rest else 0

mem-insert : (k j : ℕ) (xs : List ℕ) → mem k (insert j xs) ≡ (k == j || mem k xs)
unfolding insert
mem-insert k j [] = refl
mem-insert k j (x ∷ xs) = ground (arith, mem-insert k j xs)

pub mem-sort : (k : ℕ) (xs : List ℕ) → mem k (sort xs) ≡ mem k xs
unfolding sort
mem-sort k [] = refl
mem-sort k (x ∷ xs) = mem-insert k x (sort xs) ∙ ap (λ b. k == x || b) (mem-sort k xs)

All-insert : (y k : ℕ) (xs : List ℕ) → y ≤ k → All (λ z. y ≤ z) xs → All (λ z. y ≤ z) (insert k xs)
unfolding insert
All-insert y k [] le h = (le, tt)
All-insert y k (x ∷ xs) le (h, hs) = elim (Bool-cases (leb k x)) [
  | inl here ↦ rw here (le, (h, hs))
  | inr later ↦ rw later (h, All-insert y k xs le hs)
]

insert-IsAscending : (k : ℕ) (xs : List ℕ) → IsAscending xs → IsAscending (insert k xs)
unfolding insert
insert-IsAscending k [] h = (tt, tt)
insert-IsAscending k (x ∷ xs) (h, hs) = elim (Bool-cases (leb k x)) [
  | inl here ↦
      rw here
        ((ground arith, All-map (λ z. x ≤ z) (λ z. k ≤ z) xs (λ z l. ground arith) h), (h, hs))
  | inr later ↦ rw later (All-insert x k xs (ground arith) h, insert-IsAscending k xs hs)
]

pub sort-IsAscending : (xs : List ℕ) → IsAscending (sort xs)
unfolding sort
sort-IsAscending [] = tt
sort-IsAscending (x ∷ xs) = insert-IsAscending x (sort xs) (sort-IsAscending xs)

pub search_from_range : (xs : List ℕ) (x : ℕ) → search_from xs x ≤ length xs
unfolding search_from
search_from_range [] x = omega arith
search_from_range (y ∷ ys) x = ground (arith, search_from_range ys x)

pub search_from_below :
    (xs : List ℕ) (x : ℕ) → IsAscending xs → All (λ y. y < x) (take (search_from xs x) xs)
unfolding search_from
search_from_below [] x h = tt
search_from_below (y ∷ ys) x (h, hs) = elim (Bool-cases (ltb y x)) [
  | inl less ↦ rw less (ground arith, search_from_below ys x hs)
  | inr more ↦ rw more tt
]

pub search_from_above :
    (xs : List ℕ) (x : ℕ) → IsAscending xs → All (λ y. x ≤ y) (drop (search_from xs x) xs)
unfolding search_from
search_from_above [] x h = tt
search_from_above (y ∷ ys) x (h, hs) = elim (Bool-cases (ltb y x)) [
  | inl less ↦ rw less (search_from_above ys x hs)
  | inr more ↦ rw more (ground arith, All-map (λ z. y ≤ z) (λ z. x ≤ z) ys (λ z l. ground arith) h)
]

abbrev pub digit_hash : Bytes → ℕ
digit_hash [] = 0
digit_hash (a ∷ []) = a
digit_hash (a ∷ b ∷ rest) = 10 * a + b

abbrev pub digits : Helpers
digits = record {
  hash_func = digit_hash;
  virtual_node_name = λ i node. i ∷ node;
  ints = sort;
  search_ints = search_from;
  ints-IsAscending = sort-IsAscending;
  mem-ints = mem-sort;
  search_range = search_from_range;
  search_below = search_from_below;
  search_above = search_from_above;
}

-- Two nodes, at 5 and 15 and at 7 and 17
abbrev one_ring : ConsistentHashRing
one_ring = add_node digits (new 2) ((5 ∷ []) ∷ (7 ∷ []) ∷ [])

one_ring-IsRing : IsRing digits one_ring
one_ring-IsRing = add_node-IsRing digits (new 2) ((5 ∷ []) ∷ (7 ∷ []) ∷ []) (new-IsRing digits 2)

add_node-IsRing_example : IsRing digits (add_node digits (new 2) ((5 ∷ []) ∷ (7 ∷ []) ∷ []))
add_node-IsRing_example =
    add_node-IsRing digits (new 2) ((5 ∷ []) ∷ (7 ∷ []) ∷ []) (new-IsRing digits 2)

add_node-moves_example :
    (get_node digits (add_node digits one_ring ((9 ∷ []) ∷ [])) (8 ∷ []) ≡ some (9 ∷ []))
    ⊎ (get_node digits (add_node digits one_ring ((9 ∷ []) ∷ [])) (8 ∷ [])
        ≡ get_node digits one_ring (8 ∷ []))
add_node-moves_example = add_node-moves digits one_ring (9 ∷ []) (8 ∷ []) one_ring-IsRing

get_node-Clockwise_example :
    (p : ℕ) × Clockwise one_ring.keys 8 p
    × (get_node digits one_ring (8 ∷ []) ≡ some (node_or_empty (node_at p one_ring.hash_map)))
unfolding add_node add_nodes add_virtual new sort insert
get_node-Clockwise_example =
    get_node-Clockwise digits one_ring (8 ∷ []) one_ring-IsRing.ascending (omega arith)

remove_node-leaves_example :
    get_node digits (remove_node digits one_ring (5 ∷ [])) (4 ∷ []) ≢ some (5 ∷ [])
remove_node-leaves_example =
    remove_node-leaves digits one_ring (5 ∷ []) (4 ∷ []) one_ring-IsRing (omega arith)

one_ring-IsDistinct : IsDistinct one_ring.keys
unfolding add_node add_nodes add_virtual new sort insert
one_ring-IsDistinct = (
  (omega arith, (omega arith, (omega arith, tt))),
  ((omega arith, (omega arith, tt)), ((omega arith, tt), (tt, tt))),
)

owns :
    (i : ℕ)
    → i < one_ring.replicas
    → node_at (digit_hash (i ∷ 5 ∷ [])) one_ring.hash_map ≡ some (5 ∷ [])
unfolding add_node add_nodes add_virtual new sort insert node_at
owns zero h = refl
owns (suc zero) h = refl
owns (suc (suc i)) h = absurd (omega arith)

remove_node-keeps_example :
    get_node digits (remove_node digits one_ring (5 ∷ [])) (6 ∷ []) ≡ some (7 ∷ [])
unfolding add_node add_nodes add_virtual new sort insert node_at get_node is_empty search_from
remove_node-keeps_example =
    remove_node-keeps digits one_ring (5 ∷ []) (6 ∷ []) (7 ∷ []) one_ring-IsRing one_ring-IsDistinct
      owns refl (λ e. omega (arith, ap digit_hash e))

removal_takes_both_example :
    get_node digits
      (remove_node digits (add_node digits (new 1) ((5 ∷ []) ∷ (5 ∷ 1 ∷ []) ∷ [])) (5 ∷ []))
      (4 ∷ [])
    ≢ some (5 ∷ 1 ∷ [])
removal_takes_both_example =
    removal_takes_both digits (5 ∷ []) (5 ∷ 1 ∷ []) (4 ∷ []) refl (omega arith)
