-- ===== src/Index/Btree/Iterator.antt =====
-- memoryBTreeIterator of index/btree.go. A nil dereference panics: `none`.
use distributed_system_proje.Prelude.{
  ℕ, zero, suc, Bytes, Bool, true, false, ◌==◌, Option, none, some, List, [], ◌∷◌, if◌then◌else◌,
  ◌>>=◌,
}
use distributed_system_proje.Record.{ChunkPosition}
use distributed_system_proje.Index.Item.{Item, item_less}
use distributed_system_proje.Index.Api.{BTree}
use distributed_system_proje.Index.Btree.{search_key}

-- What the callbacks of Seek and Next change: `it.current` and `it.valid`.
pub record Cursor : Type 0 where
  pub current : Option Item
  pub valid : Bool

-- `it.current = i.(*item); it.valid = true; return false`
abbrev pub stop_here : Item → Cursor → Bool × Cursor
stop_here i c = (false, record { current = some i; valid = true })

-- `!i.(*item).Less(it.current)` and `!it.current.Less(i.(*item))`: an item not past the current one
-- is passed over.
abbrev pub past : Bool → Option Item → Item → Bool
past reverse none i = false
past reverse (some current) i =
    if reverse then item_less i (some current) else item_less current (some i)

abbrev pub step_past : Bool → Item → Cursor → Bool × Cursor
step_past reverse i c = if past reverse c.current i then stop_here i c else (true, c)

-- `if !it.valid { it.current = nil }`
abbrev pub drop_invalid : Cursor → Cursor
drop_invalid c = if c.valid then c else record c { current = none }

module _ (b : BTree) where
  open b use {Tree}

  -- The iterator; its tree is nil after Close.
  pub record Iterator : Type 0 where
    pub tree : Option Tree
    pub reverse : Bool
    pub cursor : Cursor

  -- `tree.Max()` or `tree.Min()`
  abbrev pub first_item : Bool → Tree → Option Item
  first_item reverse tree = if reverse then b.max_item tree else b.min_item tree

  unfoldable pub new_iterator : Tree → Bool → Iterator
  new_iterator tree reverse = record {
    tree = some (b.clone tree);
    reverse = reverse;
    cursor =
        if b.len tree == 0
        then record { current = none; valid = false }
        else record { current = first_item reverse tree; valid = true };
  }

  unfoldable pub rewind : Iterator → Iterator
  rewind it = elim it.tree [
    | none ↦ it
    | some tree ↦
        if b.len tree == 0
        then it
        else record it { cursor = record { current = first_item it.reverse tree; valid = true } }
  ]

  unfoldable pub seek : Iterator → Bytes → Iterator
  seek it key = elim it.tree [
    | none ↦ it
    | some tree ↦
        if it.cursor.valid
        then (let c = record it.cursor { valid = false } in
            record it {
              cursor =
                  if it.reverse
                  then b.descend_less_or_equal Cursor tree (search_key key) stop_here c
                  else b.ascend_greater_or_equal Cursor tree (search_key key) stop_here c;
            })
        else it
  ]

  -- The search starts at the current item; a valid iterator has one.
  unfoldable pub next : Iterator → Option Iterator
  next it = elim it.tree [
    | none ↦ some it
    | some tree ↦
        if it.cursor.valid
        then (do
          current ← it.cursor.current
          let c = record it.cursor { valid = false }
          some (record it {
            cursor = drop_invalid (
                if it.reverse
                then b.descend_less_or_equal Cursor tree current (step_past true) c
                else b.ascend_greater_or_equal Cursor tree current (step_past false) c);
          }))
        else some it
  ]

  unfoldable pub valid : Iterator → Bool
  valid it = it.cursor.valid

  unfoldable pub key : Iterator → Option (Option Bytes)
  key it = if it.cursor.valid then (do i ← it.cursor.current; some (some i.key)) else some none

  unfoldable pub value : Iterator → Option (Option ChunkPosition)
  value it = if it.cursor.valid then (do i ← it.cursor.current; some i.pos) else some none

  -- Close clears the tree, which panics where it is nil already.
  unfoldable pub close : Iterator → Option Iterator
  close it = elim it.tree [
    | none ↦ none
    | some tree ↦
        some (record it { tree = none; cursor = record { current = none; valid = false } })
  ]

  -- The loop of a user: read the current item and go on, for at most `fuel` rounds.
  unfoldable pub drain : ℕ → Iterator → Option (List Item)
  drain zero it = some []
  drain (suc fuel) it =
      if it.cursor.valid
      then (do i ← it.cursor.current; it' ← next it; rest ← drain fuel it'; some (i ∷ rest))
      else some []
