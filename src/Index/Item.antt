-- ===== src/Index/Item.antt =====
-- The items of the tree (index/btree.go), their order, and what the google/btree package documents of
-- its operations, on the ascending list of a tree's items.
use distributed_system_proje.Prelude.{
  ◌≡◌, refl, Bytes, Bool, true, false, Option, none, some, List, [], ◌∷◌, arith, All, if◌then◌else◌,
  bytes_equal, bytes_less, bytes_equal_iff,
}
use distributed_system_proje.Record.{ChunkPosition}

-- `item`; a search key has no position.
pub record Item : Type 0 where
  pub key : Bytes
  pub pos : Option ChunkPosition

abbrev pub position_of : Option Item → Option ChunkPosition
position_of none = none
position_of (some it) = it.pos

abbrev pub key_less : Item → Item → Bool
key_less a b = bytes_less a.key b.key

-- Every element is before all that follow it.
abbrev pub IsSorted {ℓ} : {A : Type ℓ} → (A → A → Bool) → List A → Type 0
IsSorted less [] = Unit
IsSorted less (x ∷ xs) = All (λ y. less x y ≡ true) xs × IsSorted less xs

-- `Less`, with Go's nil interface
unfoldable pub item_less : Item → Option Item → Bool
item_less it none = false
item_less it (some bi) = bytes_less it.key bi.key

module _ {ℓ} {A : Type ℓ} where
  -- The elements that pass a test, in order.
  unfoldable pub keep : (A → Bool) → List A → List A
  keep p [] = []
  keep p (x ∷ xs) = let rest = keep p xs in if p x then x ∷ rest else rest

  -- A visitor is called for each element until it answers false.
  unfoldable pub visit {κ} : {S : Type κ} → (A → S → Bool × S) → List A → S → S
  visit f [] s = s
  visit f (x ∷ xs) s = let (go, s') = f x s in elim go [ true ↦ visit f xs s' | false ↦ s' ]

-- An item takes the place of the one with its key, or its place in the order.
unfoldable pub insert_item : Item → List Item → List Item
insert_item it [] = it ∷ []
insert_item it (x ∷ xs) =
    if bytes_equal it.key x.key
    then it ∷ xs
    else if bytes_less it.key x.key
    then it ∷ x ∷ xs
    else x ∷ insert_item it xs

unfoldable pub find_item : Bytes → List Item → Option Item
find_item key [] = none
find_item key (x ∷ xs) = if bytes_equal key x.key then some x else find_item key xs

unfoldable pub delete_item : Bytes → List Item → List Item
delete_item key [] = []
delete_item key (x ∷ xs) =
    let rest = delete_item key xs in if bytes_equal key x.key then rest else x ∷ rest

pub find_item-insert_item :
    (it : Item) (key : Bytes) (xs : List Item)
    → find_item key (insert_item it xs)
      ≡ (if bytes_equal key it.key then some it else find_item key xs)
unfolding find_item insert_item
find_item-insert_item it key [] = refl
find_item-insert_item it key (x ∷ xs) = ground (
  arith,
  find_item-insert_item it key xs,
  bytes_equal_iff it.key x.key,
  bytes_equal_iff key x.key,
  bytes_equal_iff key it.key,
)

pub find_item-delete_item :
    (k key : Bytes) (xs : List Item)
    → find_item key (delete_item k xs) ≡ (if bytes_equal key k then none else find_item key xs)
unfolding find_item delete_item
find_item-delete_item k key [] = ground arith
find_item-delete_item k key (x ∷ xs) = ground (
  arith,
  find_item-delete_item k key xs,
  bytes_equal_iff k x.key,
  bytes_equal_iff key x.key,
  bytes_equal_iff key k,
)
