-- ===== src/Sharding/Removal.antt =====
-- RemoveNode (sharding/consistent_hash.go): one position of the ring is taken out.
use distributed_system_proje.Prelude.{
  take-append-drop, ℕ, zero, suc, ◌≤◌, ◌<◌, ◌≡◌, refl, ap, sym, ◌∙◌, subst, false, not, ◌||◌, ◌&&◌,
  Option, none, some, List, [], ◌∷◌, ◌++◌, ◌==◌, ==_iff, inl, inr, arith, if◌then◌else◌, take, drop,
  get_elem?, All, All-map, Bool-cases,
}
use distributed_system_proje.Sharding.{
  Helpers, HashMap, IsAscending, mem, node_at, drop_at, drop_key,
}
use distributed_system_proje.Sharding.Clockwise.{mem-append, All-mem, List-cases, get_elem?-drop}

-- No two virtual nodes stand at one position.
abbrev pub IsDistinct : List ℕ → Type 0
IsDistinct [] = Unit
IsDistinct (x ∷ xs) = All (λ y. x < y) xs × IsDistinct xs

pub IsDistinct-IsAscending : (xs : List ℕ) → IsDistinct xs → IsAscending xs
IsDistinct-IsAscending [] d = tt
IsDistinct-IsAscending (x ∷ xs) (h, d) =
    (All-map (λ y. x < y) (λ y. x ≤ y) xs (λ y l. omega (arith, l)) h, IsDistinct-IsAscending xs d)

All-without :
    (P : ℕ → Type 0) (n : ℕ) (xs : List ℕ) → All P xs → All P (take n xs ++ drop (suc n) xs)
All-without P zero [] h = tt
All-without P (suc n) [] h = tt
All-without P zero (x ∷ xs) h = h.1
All-without P (suc n) (x ∷ xs) h = (h.0, All-without P n xs h.1)

without-IsDistinct :
    (n : ℕ) (xs : List ℕ) → IsDistinct xs → IsDistinct (take n xs ++ drop (suc n) xs)
without-IsDistinct zero [] h = tt
without-IsDistinct (suc n) [] h = tt
without-IsDistinct zero (x ∷ xs) h = h.1
without-IsDistinct (suc n) (x ∷ xs) h =
    (All-without (λ y. x < y) n xs h.0, without-IsDistinct n xs h.1)

drop-rest :
    (n : ℕ) (xs : List ℕ) (x : ℕ) (rest : List ℕ) → drop n xs ≡ x ∷ rest → drop (suc n) xs ≡ rest
drop-rest zero [] x rest e = absurd (cc)
drop-rest (suc n) [] x rest e = absurd (cc)
drop-rest zero (y ∷ xs) x rest e = ap (drop 1) e
drop-rest (suc n) (y ∷ xs) x rest e = drop-rest n xs x rest e

drop-IsDistinct : (n : ℕ) (xs : List ℕ) → IsDistinct xs → IsDistinct (drop n xs)
drop-IsDistinct zero xs h = h
drop-IsDistinct (suc n) [] h = tt
drop-IsDistinct (suc n) (x ∷ xs) h = drop-IsDistinct n xs h.1

-- What fails at one number holds of no list that has it.
mem-false : (P : ℕ → Type 0) (k : ℕ) (xs : List ℕ) → All P xs → ¬ P k → mem k xs ≡ false
mem-false P k xs h fails = elim (Bool-cases (mem k xs)) [
  | inl e ↦ absurd (fails (All-mem P xs k h e))
  | inr e ↦ e
]

pub node_at-drop_at :
    (k j : ℕ) (m : HashMap) → node_at j (drop_at k m) ≡ (if j == k then none else node_at j m)
unfolding node_at drop_at
node_at-drop_at k j [] = ground arith
node_at-drop_at k j ((i, n) ∷ m) = ground (arith, node_at-drop_at k j m)

get_elem?-past : (n : ℕ) (xs : List ℕ) → drop n xs ≡ [] → get_elem? xs n ≡ none
get_elem?-past zero [] e = refl
get_elem?-past (suc n) [] e = refl
get_elem?-past zero (x ∷ xs) e = absurd (cc)
get_elem?-past (suc n) (x ∷ xs) e = get_elem?-past n xs e

not-there :
    (k j : ℕ) (keys : List ℕ) → mem k keys ≡ false → mem j keys ≡ (mem j keys && not (j == k))
not-there k j keys e = elim (Bool-cases (j == k)) [
  | inl same ↦
      subst (λ i. mem i keys ≡ (mem i keys && not (i == k))) (sym ((==_iff j k).0 same))
        (ground (arith, e))
  | inr other ↦ ground arith
]

module _ (h : Helpers) where
  abbrev drop_found : Option ℕ → ℕ → ℕ → List ℕ → List ℕ
  drop_found none k idx keys = keys
  drop_found (some x) k idx keys = if x == k then take idx keys ++ drop (suc idx) keys else keys

  drop_key-found :
      (k : ℕ) (keys : List ℕ) (o : Option ℕ)
      → get_elem? keys (h.search_ints keys k) ≡ o
      → drop_key h k keys ≡ drop_found o k (h.search_ints keys k) keys
  unfolding drop_key
  drop_key-found k keys none e = rw (e, drop_key) refl
  drop_key-found k keys (some x) e = rw (e, drop_key) refl

  drop_found-IsDistinct :
      (o : Option ℕ) (k idx : ℕ) (keys : List ℕ)
      → IsDistinct keys
      → IsDistinct (drop_found o k idx keys)
  drop_found-IsDistinct none k idx keys d = d
  drop_found-IsDistinct (some x) k idx keys d = elim (Bool-cases (x == k)) [
    | inl same ↦ subst IsDistinct (rw same refl) (without-IsDistinct idx keys d)
    | inr other ↦ subst IsDistinct (rw other refl) d
  ]

  pub drop_key-IsDistinct :
      (k : ℕ) (keys : List ℕ) → IsDistinct keys → IsDistinct (drop_key h k keys)
  drop_key-IsDistinct k keys d =
      subst IsDistinct (sym (drop_key-found k keys _ refl))
        (drop_found-IsDistinct _ k (h.search_ints keys k) keys d)

  pub mem-drop_key :
      (k j : ℕ) (keys : List ℕ)
      → IsDistinct keys
      → mem j (drop_key h k keys) ≡ (mem j keys && not (j == k))
  mem-drop_key k j keys d =
      let idx = h.search_ints keys k in
      let below = h.search_below keys k (IsDistinct-IsAscending keys d) in
      let above = h.search_above keys k (IsDistinct-IsAscending keys d) in
      let cut : (i : ℕ) → mem i keys ≡ (mem i (take idx keys) || mem i (drop idx keys)) = λ i.
        ap (mem i) (sym (take-append-drop idx keys))
        ∙ mem-append i (take idx keys) (drop idx keys) in
      let first : mem k (take idx keys) ≡ false =
        mem-false (λ y. y < k) k (take idx keys) below (λ l. omega (arith, l)) in
      elim (List-cases (drop idx keys)) [
        | inl e ↦
            ap (mem j) (drop_key-found k keys none (get_elem?-past idx keys e))
            ∙ not-there k j keys (cut k ∙ ground (arith, first, ap (mem k) e))
        | inr (p, (rest, e)) ↦
            (let (later, later_distinct) = subst IsDistinct e (drop-IsDistinct idx keys d) in
              let g = (get_elem?-drop idx keys p rest e).0 in
              let parts : (i : ℕ) → mem i keys ≡ (mem i (take idx keys) || (i == p || mem i rest)) =
                λ i. cut i ∙ ground (arith, ap (mem i) e) in
              let last : mem k rest ≡ false =
                mem-false (λ y. p < y) k rest later
                  (λ l. omega (arith, l, (subst (All (λ y. k ≤ y)) e above).0)) in
              elim (Bool-cases (p == k)) [
                | inl same ↦
                    ap (mem j) (
                      drop_key-found k keys (some p) g
                      ∙ rw same (ap (λ ys. take idx keys ++ ys) (drop-rest idx keys p rest e)))
                    ∙ mem-append j (take idx keys) rest
                    ∙ (elim (Bool-cases (j == k)) [
                      | inl at_k ↦
                          subst
                            (λ i.
                              (mem i (take idx keys) || mem i rest) ≡ (mem i keys && not (i == k)))
                            (sym ((==_iff j k).0 at_k)) (ground (arith, first, last))
                      | inr other ↦ ground (arith, parts j)
                    ])
                | inr other ↦
                    ap (mem j) (drop_key-found k keys (some p) g ∙ rw other refl)
                    ∙ not-there k j keys (parts k ∙ ground (arith, first, last))
              ])
      ]
