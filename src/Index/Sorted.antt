-- ===== src/Index/Sorted.antt =====
-- Lists in a strict order: what insertion, deletion, reversal and filters keep of it.
use distributed_system_proje.Prelude.{
  ◌≡◌, refl, ap, Bytes, Bool, true, false, List, [], ◌∷◌, ◌++◌, arith, All, All-append, All-right,
  All-map, bytes_equal, bytes_less, bytes_equal-eq, bytes_less_trans, bytes_less_total, inl, inr,
  Bool-cases,
}
use distributed_system_proje.Index.Item.{key_less, IsSorted, Item, keep, insert_item, delete_item}
use mathlib.Core.List.{reverse, reverse-cons}

module _ {ℓ} {A : Type ℓ} (less : A → A → Bool) where
  pub IsSorted-split :
      (pre : List A) (x : A) (post : List A)
      → IsSorted less (pre ++ (x ∷ post))
      → All (λ y. less y x ≡ true) pre × All (λ y. less x y ≡ true) post
  IsSorted-split [] x post h = (tt, h.0)
  IsSorted-split (y ∷ pre) x post h =
      let rest = IsSorted-split pre x post h.1 in
      (((All-right _ pre (x ∷ post) h.0).0, rest.0), rest.1)

  pub IsSorted-snoc :
      (xs : List A) (x : A)
      → IsSorted less xs
      → All (λ y. less y x ≡ true) xs
      → IsSorted less (xs ++ (x ∷ []))
  IsSorted-snoc [] x h k = (tt, tt)
  IsSorted-snoc (y ∷ xs) x h k =
      (All-append _ xs (x ∷ []) h.0 (k.0, tt), IsSorted-snoc xs x h.1 k.1)

module _ {ℓ κ} {A : Type ℓ} (P : A → Type κ) where
  pub All-reverse : (xs : List A) → All P xs → All P (reverse xs)
  All-reverse [] h = tt
  All-reverse (x ∷ xs) h =
      rw reverse-cons (All-append P (reverse xs) (x ∷ []) (All-reverse xs h.1) (h.0, tt))

pub IsSorted-reverse {ℓ} :
    {A : Type ℓ} (less : A → A → Bool) (xs : List A)
    → IsSorted less xs
    → IsSorted (λ x y. less y x) (reverse xs)
IsSorted-reverse less [] h = tt
IsSorted-reverse less (x ∷ xs) h = rw reverse-cons (
    IsSorted-snoc (λ x y. less y x) (reverse xs) x (IsSorted-reverse less xs h.1)
      (All-reverse _ xs h.0))

module _ {ℓ} {A : Type ℓ} (p : A → Bool) where
  pub keep-append : (xs ys : List A) → keep p (xs ++ ys) ≡ keep p xs ++ keep p ys
  unfolding keep
  keep-append [] ys = refl
  keep-append (x ∷ xs) ys = ground (arith, keep-append xs ys)

  pub keep_nothing : (xs : List A) → All (λ x. p x ≡ false) xs → keep p xs ≡ []
  unfolding keep
  keep_nothing [] h = refl
  keep_nothing (x ∷ xs) h = rw h.0 (keep_nothing xs h.1)

  pub keep_everything : (xs : List A) → All (λ x. p x ≡ true) xs → keep p xs ≡ xs
  unfolding keep
  keep_everything [] h = refl
  keep_everything (x ∷ xs) h = rw h.0 (ap (◌∷◌ x) (keep_everything xs h.1))

insert_item-All :
    (k it : Item) (xs : List Item)
    → key_less k it ≡ true
    → All (λ y. key_less k y ≡ true) xs
    → All (λ y. key_less k y ≡ true) (insert_item it xs)
unfolding insert_item
insert_item-All k it [] e h = (e, tt)
insert_item-All k it (x ∷ xs) e h = ground (arith, insert_item-All k it xs)

pub insert_item-IsSorted :
    (it : Item) (xs : List Item) → IsSorted key_less xs → IsSorted key_less (insert_item it xs)
unfolding insert_item
insert_item-IsSorted it [] h = (tt, tt)
insert_item-IsSorted it (x ∷ xs) h = elim (Bool-cases (bytes_equal it.key x.key)) [
  | inl same ↦ rw same (All-map _ _ xs (λ y l. rw (bytes_equal-eq _ _ same) l) h.0, h.1)
  | inr other ↦ elim (Bool-cases (bytes_less it.key x.key)) [
    | inl before ↦
        rw (other, before)
          ((before, All-map _ _ xs (λ y l. bytes_less_trans _ _ _ before l) h.0), h)
    | inr after ↦
        rw (other, after)
          (
            insert_item-All x it xs (bytes_less_total it.key x.key after other) h.0,
            insert_item-IsSorted it xs h.1,
          )
  ]
]

pub delete_item-All :
    (P : Item → Type 0) (k : Bytes) (xs : List Item) → All P xs → All P (delete_item k xs)
unfolding delete_item
delete_item-All P k [] h = tt
delete_item-All P k (x ∷ xs) h = elim (Bool-cases (bytes_equal k x.key)) [
  | inl e ↦ rw e (delete_item-All P k xs h.1)
  | inr e ↦ rw e (h.0, delete_item-All P k xs h.1)
]

pub delete_item-IsSorted :
    (k : Bytes) (xs : List Item) → IsSorted key_less xs → IsSorted key_less (delete_item k xs)
unfolding delete_item
delete_item-IsSorted k [] h = tt
delete_item-IsSorted k (x ∷ xs) h = elim (Bool-cases (bytes_equal k x.key)) [
  | inl e ↦ rw e (delete_item-IsSorted k xs h.1)
  | inr e ↦ rw e (delete_item-All _ k xs h.0, delete_item-IsSorted k xs h.1)
]
