-- ===== src/Sharding/Clockwise.antt =====
-- GetNode (sharding/consistent_hash.go) finds the first position of the ring at or behind a hash.
use distributed_system_proje.Prelude.{
  length-drop, append-nil, take-append-drop, ==_iff, ℕ, zero, suc, ◌≤◌, ◌<◌, ◌≡◌, refl, ap, sym,
  ◌∙◌, subst, Bytes, true, false, ◌||◌, some, List, [], ◌∷◌, ◌++◌, ◌==◌, ◌⊎◌, inl, inr, arith,
  length, take, drop, get_elem?, All, Bool-cases,
}
use distributed_system_proje.Sharding.{
  HashMap, Helpers, ConsistentHashRing, IsAscending, mem, node_at, get_node, node_or_empty,
  is_empty,
}

-- Going up from a hash, and on from the smallest position behind the greatest, `p` comes first.
pub record Clockwise (keys : List ℕ) (hash p : ℕ) : Type 0 where
  pub on_ring : mem p keys ≡ true
  pub closest :
      ((hash ≤ p) × ((k : ℕ) → mem k keys ≡ true → hash ≤ k → p ≤ k))
      ⊎ (((k : ℕ) → mem k keys ≡ true → k < hash) × ((k : ℕ) → mem k keys ≡ true → p ≤ k))

pub Clockwise-unique :
    (keys : List ℕ) (hash p q : ℕ) → Clockwise keys hash p → Clockwise keys hash q → p ≡ q
Clockwise-unique keys hash p q c d = elim c.closest [
  | inl (a, b) ↦ elim d.closest [
    | inl (a', b') ↦ omega (arith, b q d.on_ring a', b' p c.on_ring a)
    | inr (a', b') ↦ absurd (omega (arith, a' p c.on_ring))
  ]
  | inr (a, b) ↦ elim d.closest [
    | inl (a', b') ↦ absurd (omega (arith, a q d.on_ring))
    | inr (a', b') ↦ omega (arith, b q d.on_ring, b' p c.on_ring)
  ]
]

-- What comes first among more positions comes first among fewer that still have it.
pub Clockwise-fewer :
    (keys less : List ℕ) (hash p : ℕ)
    → Clockwise keys hash p
    → mem p less ≡ true
    → ((k : ℕ) → mem k less ≡ true → mem k keys ≡ true)
    → Clockwise less hash p
Clockwise-fewer keys less hash p c m sub = record {
  on_ring = m;
  closest = elim c.closest [
    | inl (a, b) ↦ inl (a, λ k e. b k (sub k e))
    | inr (a, b) ↦ inr (λ k e. a k (sub k e), λ k e. b k (sub k e))
  ];
}

pub mem-append : (k : ℕ) (xs ys : List ℕ) → mem k (xs ++ ys) ≡ (mem k xs || mem k ys)
mem-append k [] ys = refl
mem-append k (x ∷ xs) ys = ground (arith, mem-append k xs ys)

pub All-mem : (P : ℕ → Type 0) (xs : List ℕ) (k : ℕ) → All P xs → mem k xs ≡ true → P k
All-mem P [] k h e = absurd (cc)
All-mem P (x ∷ xs) k (h, hs) e = elim (Bool-cases (k == x)) [
  | inl same ↦ subst P (sym ((==_iff k x).0 same)) h
  | inr other ↦ All-mem P xs k hs (ground arith)
]

pub drop-IsAscending : (n : ℕ) (xs : List ℕ) → IsAscending xs → IsAscending (drop n xs)
drop-IsAscending zero xs h = h
drop-IsAscending (suc n) [] h = tt
drop-IsAscending (suc n) (x ∷ xs) h = drop-IsAscending n xs h.1

pub get_elem?-drop :
    (n : ℕ) (xs : List ℕ) (p : ℕ) (rest : List ℕ)
    → drop n xs ≡ p ∷ rest
    → (get_elem? xs n ≡ some p) × (n < length xs)
get_elem?-drop zero [] p rest e = absurd (cc)
get_elem?-drop (suc n) [] p rest e = absurd (cc)
get_elem?-drop zero (x ∷ xs) p rest e = (ap (λ ys. get_elem? ys 0) e, omega arith)
get_elem?-drop (suc n) (x ∷ xs) p rest e =
    let (a, b) = get_elem?-drop n xs p rest e in (a, omega (arith, b))

pub List-cases {ℓ} :
    {A : Type ℓ} (xs : List A) → (xs ≡ []) ⊎ ((x : A) × ((rest : List A) × (xs ≡ x ∷ rest)))
List-cases [] = inl refl
List-cases (x ∷ xs) = inr (x, (xs, refl))

module _ (h : Helpers) where
  -- Where a search ends, if it ends in the list
  search-Clockwise :
      (keys : List ℕ) (hash p : ℕ) (rest : List ℕ)
      → IsAscending keys
      → drop (h.search_ints keys hash) keys ≡ p ∷ rest
      → Clockwise keys hash p
  search-Clockwise keys hash p rest asc e =
      let idx = h.search_ints keys hash in
      let above : All (λ y. hash ≤ y) (p ∷ rest) =
        subst (All (λ y. hash ≤ y)) e (h.search_above keys hash asc) in
      let later : IsAscending (p ∷ rest) = subst IsAscending e (drop-IsAscending idx keys asc) in
      let parts : (k : ℕ) → mem k keys ≡ (mem k (take idx keys) || mem k (p ∷ rest)) = λ k.
        ap (mem k) (sym (take-append-drop idx keys))
        ∙ mem-append k (take idx keys) (drop idx keys)
        ∙ ap (λ ys. mem k (take idx keys) || mem k ys) e in
      record {
        on_ring = ground (arith, parts p);
        closest = inl (
          above.0,
          λ k m le. elim (Bool-cases (mem k (take idx keys))) [
            | inl below ↦ absurd (
                omega (
                  arith,
                  All-mem (λ y. y < hash) (take idx keys) k (h.search_below keys hash asc) below,
                ))
            | inr other ↦
                All-mem (λ y. p ≤ y) (p ∷ rest) k (omega arith, later.0) (ground (arith, parts k))
          ],
        );
      }

  -- Where a search ends behind the list, the smallest position is next.
  wrapped-Clockwise :
      (x : ℕ) (xs : List ℕ) (hash : ℕ)
      → IsAscending (x ∷ xs)
      → drop (h.search_ints (x ∷ xs) hash) (x ∷ xs) ≡ []
      → Clockwise (x ∷ xs) hash x
  wrapped-Clockwise x xs hash asc e =
      let idx = h.search_ints (x ∷ xs) hash in
      let all : take idx (x ∷ xs) ≡ x ∷ xs =
        sym (append-nil (take idx (x ∷ xs)))
        ∙ ap (λ ys. take idx (x ∷ xs) ++ ys) (sym e)
        ∙ take-append-drop idx (x ∷ xs) in
      let below : All (λ y. y < hash) (x ∷ xs) =
        subst (All (λ y. y < hash)) all (h.search_below (x ∷ xs) hash asc) in
      record {
        on_ring = ground arith;
        closest = inr (
          λ k m. All-mem (λ y. y < hash) (x ∷ xs) k below m,
          λ k m. All-mem (λ y. x ≤ y) (x ∷ xs) k (omega arith, asc.0) m,
        );
      }

  get_node_in :
      (replicas : ℕ) (keys : List ℕ) (m : HashMap) (key : Bytes)
      → IsAscending keys
      → 0 < length keys
      → (p : ℕ) × Clockwise keys (h.hash_func key) p
        × (get_node h (record { replicas = replicas; keys = keys; hash_map = m }) key
            ≡ some (node_or_empty (node_at p m)))
  unfolding get_node is_empty
  get_node_in replicas [] m key asc n = absurd (omega arith)
  get_node_in replicas (x ∷ xs) m key asc n =
      let idx = h.search_ints (x ∷ xs) (h.hash_func key) in
      let full : is_empty (record { replicas = replicas; keys = x ∷ xs; hash_map = m }) ≡ false =
        ground arith in
      elim (List-cases (drop idx (x ∷ xs))) [
        | inl e ↦
            (let last : (idx == length (x ∷ xs)) ≡ true = ground (
              arith,
              ap length e,
              length-drop idx (x ∷ xs),
              h.search_range (x ∷ xs) (h.hash_func key),
            ) in
              (x, wrapped-Clockwise x xs (h.hash_func key) asc e, rw (full, last) refl))
        | inr (p, (rest, e)) ↦
            (let (g, below) = get_elem?-drop idx (x ∷ xs) p rest e in
              let inside : (idx == length (x ∷ xs)) ≡ false = ground (arith, below) in
              (
                p,
                search-Clockwise (x ∷ xs) (h.hash_func key) p rest asc e,
                rw (full, inside, g) refl,
              ))
      ]

  -- On a ring whose positions ascend and that is not empty, GetNode does not panic, and returns the
  -- node of the first position at or behind the hash of the key, going around.
  pub get_node-Clockwise :
      (r : ConsistentHashRing) (key : Bytes)
      → IsAscending r.keys
      → 0 < length r.keys
      → (p : ℕ) × Clockwise r.keys (h.hash_func key) p
        × (get_node h r key ≡ some (node_or_empty (node_at p r.hash_map)))
  get_node-Clockwise r key asc n = get_node_in r.replicas r.keys r.hash_map key asc n
