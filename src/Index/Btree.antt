-- ===== src/Index/Btree.antt =====
-- index/btree.go: MemoryBTree over a google/btree tree. Its lock orders the calls, so each is one
-- step from tree to tree.
pub mod Laws
pub mod Iterator
pub mod Traverse
pub mod Walking
use distributed_system_proje.Prelude.{
  ℕ, ◌≡◌, refl, Bytes, Bool, true, false, Option, none, some, List, arith, if◌then◌else◌,
  bytes_equal,
}
use distributed_system_proje.Errors.{Error}
use distributed_system_proje.Record.{ChunkPosition}
use distributed_system_proje.Index.Item.{
  position_of, Item, insert_item, find_item, delete_item, find_item-insert_item,
  find_item-delete_item,
}
use distributed_system_proje.Index.Api.{BTree, Handler, visitor}

-- `&item{key: key}`
abbrev pub search_key : Bytes → Item
search_key key = record { key = key; pos = none }

module _ (b : BTree) where
  open b use {Tree}

  unfoldable pub new_btree : Tree
  new_btree = b.new

  unfoldable pub put : Tree → Bytes → ChunkPosition → Tree × Option ChunkPosition
  put tree key position =
      let (tree', old_value) =
        b.replace_or_insert tree (record { key = key; pos = some position }) in
      (tree', position_of old_value)

  unfoldable pub get : Tree → Bytes → Option ChunkPosition
  get tree key = position_of (b.get tree (search_key key))

  unfoldable pub delete : Tree → Bytes → Tree × (Option ChunkPosition × Bool)
  delete tree key =
      let (tree', value) = b.delete tree (search_key key) in
      (tree', elim value [ none ↦ (none, false) | some it ↦ (it.pos, true) ])

  unfoldable pub size : Tree → ℕ
  size tree = b.len tree

  unfoldable pub ascend : (S : Type 0) → Tree → Handler S → S → S
  ascend S tree handle_fn s = b.ascend S tree (visitor handle_fn) s

  unfoldable pub descend : (S : Type 0) → Tree → Handler S → S → S
  descend S tree handle_fn s = b.descend S tree (visitor handle_fn) s

  unfoldable pub ascend_range : (S : Type 0) → Tree → Bytes → Bytes → Handler S → S → S
  ascend_range S tree start_key end_key handle_fn s =
      b.ascend_range S tree (search_key start_key) (search_key end_key) (visitor handle_fn) s

  unfoldable pub descend_range : (S : Type 0) → Tree → Bytes → Bytes → Handler S → S → S
  descend_range S tree start_key end_key handle_fn s =
      b.descend_range S tree (search_key start_key) (search_key end_key) (visitor handle_fn) s

  unfoldable pub ascend_greater_or_equal : (S : Type 0) → Tree → Bytes → Handler S → S → S
  ascend_greater_or_equal S tree key handle_fn s =
      b.ascend_greater_or_equal S tree (search_key key) (visitor handle_fn) s

  unfoldable pub descend_less_or_equal : (S : Type 0) → Tree → Bytes → Handler S → S → S
  descend_less_or_equal S tree key handle_fn s =
      b.descend_less_or_equal S tree (search_key key) (visitor handle_fn) s
