-- ===== src/Index/Api.antt =====
-- The two interfaces of the index: what index/btree.go uses of the google/btree package, and the
-- interface Indexer of index/index.go, which the rest of the database uses.
use distributed_system_proje.Prelude.{
  false, ℕ, ◌≡◌, Bytes, Bool, not, ◌&&◌, if◌then◌else◌, true, ◌∷◌, Option, none, some, List, [],
  if◌then◌else◌, bytes_equal, bytes_less, length,
}
use distributed_system_proje.Errors.{Error}
use distributed_system_proje.Record.{ChunkPosition}
use distributed_system_proje.Index.Item.{
  key_less, IsSorted, position_of, Item, keep, visit, insert_item, find_item, delete_item,
}
use mathlib.Core.List.{reverse, head?}

-- A google/btree tree of items. `items` lists its items in ascending order; the laws are what the
-- package documents of each operation.
pub record BTree : Type 1 where
  pub Tree : Type 0
  pub items : Tree → List Item
  pub new : Tree
  pub replace_or_insert : Tree → Item → Tree × Option Item
  pub get : Tree → Item → Option Item
  pub delete : Tree → Item → Tree × Option Item
  pub len : Tree → ℕ
  pub min_item : Tree → Option Item
  pub max_item : Tree → Option Item
  pub clone : Tree → Tree
  pub ascend : (S : Type 0) → Tree → (Item → S → Bool × S) → S → S
  pub descend : (S : Type 0) → Tree → (Item → S → Bool × S) → S → S
  pub ascend_range : (S : Type 0) → Tree → Item → Item → (Item → S → Bool × S) → S → S
  pub descend_range : (S : Type 0) → Tree → Item → Item → (Item → S → Bool × S) → S → S
  pub ascend_greater_or_equal : (S : Type 0) → Tree → Item → (Item → S → Bool × S) → S → S
  pub descend_less_or_equal : (S : Type 0) → Tree → Item → (Item → S → Bool × S) → S → S
  -- the items stand in ascending order
  pub items-IsSorted : (t : Tree) → IsSorted key_less (items t)
  pub items-new : items new ≡ []
  pub items-replace :
      (t : Tree) (it : Item) → items (replace_or_insert t it).0 ≡ insert_item it (items t)
  pub replaced : (t : Tree) (it : Item) → (replace_or_insert t it).1 ≡ find_item it.key (items t)
  pub get-items : (t : Tree) (it : Item) → get t it ≡ find_item it.key (items t)
  pub items-delete : (t : Tree) (it : Item) → items (delete t it).0 ≡ delete_item it.key (items t)
  pub deleted : (t : Tree) (it : Item) → (delete t it).1 ≡ find_item it.key (items t)
  pub len-items : (t : Tree) → len t ≡ length (items t)
  pub min-items : (t : Tree) → min_item t ≡ head? (items t)
  pub max-items : (t : Tree) → max_item t ≡ head? (reverse (items t))
  pub items-clone : (t : Tree) → items (clone t) ≡ items t
  pub ascend-items :
      (S : Type 0) (t : Tree) (f : Item → S → Bool × S) (s : S)
      → ascend S t f s ≡ visit f (items t) s
  pub descend-items :
      (S : Type 0) (t : Tree) (f : Item → S → Bool × S) (s : S)
      → descend S t f s ≡ visit f (reverse (items t)) s
  -- from the first bound on, and below the second
  pub ascend_range-items :
      (S : Type 0) (t : Tree) (lo hi : Item) (f : Item → S → Bool × S) (s : S)
      → ascend_range S t lo hi f s
        ≡ visit f (keep (λ x. not (key_less x lo) && key_less x hi) (items t)) s
  -- from the first bound down, and above the second
  pub descend_range-items :
      (S : Type 0) (t : Tree) (hi lo : Item) (f : Item → S → Bool × S) (s : S)
      → descend_range S t hi lo f s
        ≡ visit f (keep (λ x. not (key_less hi x) && key_less lo x) (reverse (items t))) s
  pub ascend_greater_or_equal-items :
      (S : Type 0) (t : Tree) (lo : Item) (f : Item → S → Bool × S) (s : S)
      → ascend_greater_or_equal S t lo f s ≡ visit f (keep (λ x. not (key_less x lo)) (items t)) s
  pub descend_less_or_equal-items :
      (S : Type 0) (t : Tree) (hi : Item) (f : Item → S → Bool × S) (s : S)
      → descend_less_or_equal S t hi f s
        ≡ visit f (keep (λ x. not (key_less hi x)) (reverse (items t))) s

-- What a handler of an iteration answers: whether to go on, or an error, and its own state.
abbrev pub Handler : Type 0 → Type 0
Handler S = Bytes → Option ChunkPosition → S → (Bool × Option Error) × S

-- Whether a walk goes on behind a handler's answer
abbrev pub goes_on : Bool × Option Error → Bool
goes_on a = elim a.1 [ none ↦ a.0 | some e ↦ false ]

-- The visitor that every iteration passes to the tree: an error stops it, as does the answer false.
unfoldable pub visitor : {S : Type 0} → Handler S → Item → S → Bool × S
visitor handle_fn it s = let (answer, s') = handle_fn it.key it.pos s in (goes_on answer, s')

-- `Indexer` of index/index.go: the operations that the database calls, and what it relies on.
-- `entries` lists the keys and positions in ascending order.
pub record Indexer : Type 1 where
  pub Index : Type 0
  pub entries : Index → List Item
  pub new_indexer : Index
  pub put : Index → Bytes → ChunkPosition → Index × Option ChunkPosition
  pub get : Index → Bytes → Option ChunkPosition
  pub delete : Index → Bytes → Index × (Option ChunkPosition × Bool)
  pub size : Index → ℕ
  pub ascend : (S : Type 0) → Index → Handler S → S → S
  pub ascend_range : (S : Type 0) → Index → Bytes → Bytes → Handler S → S → S
  pub ascend_greater_or_equal : (S : Type 0) → Index → Bytes → Handler S → S → S
  pub descend : (S : Type 0) → Index → Handler S → S → S
  pub descend_range : (S : Type 0) → Index → Bytes → Bytes → Handler S → S → S
  pub descend_less_or_equal : (S : Type 0) → Index → Bytes → Handler S → S → S
  pub entries-IsSorted : (i : Index) → IsSorted key_less (entries i)
  pub size-entries : (i : Index) → size i ≡ length (entries i)
  pub get-entries : (i : Index) (key : Bytes) → get i key ≡ position_of (find_item key (entries i))
  pub get-new : (key : Bytes) → get new_indexer key ≡ none
  pub get-put :
      (i : Index) (k key : Bytes) (p : ChunkPosition)
      → get (put i k p).0 key ≡ (if bytes_equal key k then some p else get i key)
  pub get-delete :
      (i : Index) (k key : Bytes)
      → get (delete i k).0 key ≡ (if bytes_equal key k then none else get i key)
  pub entries-delete : (i : Index) (k : Bytes) → entries (delete i k).0 ≡ delete_item k (entries i)
  pub ascend-entries :
      (S : Type 0) (i : Index) (f : Handler S) (s : S)
      → ascend S i f s ≡ visit (visitor f) (entries i) s
  -- from the first key on, and below the second
  pub ascend_range-entries :
      (S : Type 0) (i : Index) (lo hi : Bytes) (f : Handler S) (s : S)
      → ascend_range S i lo hi f s
        ≡ visit
            (visitor f)
            (keep (λ x. not (bytes_less x.key lo) && bytes_less x.key hi) (entries i))
            s
  pub ascend_greater_or_equal-entries :
      (S : Type 0) (i : Index) (lo : Bytes) (f : Handler S) (s : S)
      → ascend_greater_or_equal S i lo f s
        ≡ visit (visitor f) (keep (λ x. not (bytes_less x.key lo)) (entries i)) s
  pub descend-entries :
      (S : Type 0) (i : Index) (f : Handler S) (s : S)
      → descend S i f s ≡ visit (visitor f) (reverse (entries i)) s
  -- from the first key down, and above the second
  pub descend_range-entries :
      (S : Type 0) (i : Index) (hi lo : Bytes) (f : Handler S) (s : S)
      → descend_range S i hi lo f s
        ≡ visit
            (visitor f)
            (keep (λ x. not (bytes_less hi x.key) && bytes_less lo x.key) (reverse (entries i)))
            s
  pub descend_less_or_equal-entries :
      (S : Type 0) (i : Index) (hi : Bytes) (f : Handler S) (s : S)
      → descend_less_or_equal S i hi f s
        ≡ visit (visitor f) (keep (λ x. not (bytes_less hi x.key)) (reverse (entries i))) s

-- `IndexIterator` of index/index.go, and the operation of the index that makes one. `Left it xs` says
-- that the iterator stands on the first of some items and goes on through the others.
pub record IndexIterator (ix : Indexer) : Type 1 where
  pub Iter : Type 0
  pub iterator : ix.Index → Bool → Iter
  pub rewind : Iter → Iter
  pub seek : Iter → Bytes → Iter
  pub next : Iter → Option Iter
  pub valid : Iter → Bool
  pub key : Iter → Option (Option Bytes)
  pub value : Iter → Option (Option ChunkPosition)
  pub close : Iter → Option Iter
  pub Left : Iter → List Item → Type 0
  pub iterator-Left :
      (i : ix.Index) (backwards : Bool)
      → Left (iterator i backwards) (if backwards then reverse (ix.entries i) else ix.entries i)
  pub valid_at_end : (it : Iter) → Left it [] → valid it ≡ false
  pub valid_before : (it : Iter) (x : Item) (xs : List Item) → Left it (x ∷ xs) → valid it ≡ true
  pub key-Left :
      (it : Iter) (x : Item) (xs : List Item) → Left it (x ∷ xs) → key it ≡ some (some x.key)
  pub value-Left :
      (it : Iter) (x : Item) (xs : List Item) → Left it (x ∷ xs) → value it ≡ some x.pos
  pub next-Left :
      (it : Iter) (x : Item) (xs : List Item)
      → Left it (x ∷ xs)
      → (it' : Iter) × (next it ≡ some it') × Left it' xs
