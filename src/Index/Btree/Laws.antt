-- ===== src/Index/Btree/Laws.antt =====
-- MemoryBTree is an Indexer: its keys and positions are a finite map, whatever the tree does inside.
use distributed_system_proje.Prelude.{
  ◌≡◌, refl, ap, ◌∙◌, Bytes, not, ◌&&◌, length, bytes_less, none, some, arith, if◌then◌else◌,
  bytes_equal,
}
use distributed_system_proje.Record.{ChunkPosition}
use distributed_system_proje.Index.Item.{
  position_of, keep, visit, Item, find_item, find_item-insert_item, find_item-delete_item,
  delete_item,
}
use distributed_system_proje.Index.Api.{BTree, Indexer, Handler, visitor}
use mathlib.Core.List.{reverse}
use distributed_system_proje.Index.Btree.{
  search_key, new_btree, put, get, delete, size, ascend, ascend_range, ascend_greater_or_equal,
  descend, descend_range, descend_less_or_equal,
}

module _ (b : BTree) where
  open b use {Tree}

  pub get-items : (t : Tree) (key : Bytes) → get b t key ≡ position_of (find_item key (b.items t))
  unfolding get
  get-items t key = ap position_of (b.get-items t (search_key key))

  -- A fresh index holds no key.
  pub get-new_index : (key : Bytes) → get b (new_btree b) key ≡ none
  unfolding new_btree find_item
  get-new_index key = get-items b.new key ∙ rw b.items-new refl

  -- After a Put, Get returns the new position under its key, and what it did under any other.
  pub get-put_index :
      (t : Tree) (k key : Bytes) (p : ChunkPosition)
      → get b (put b t k p).0 key ≡ (if bytes_equal key k then some p else get b t key)
  unfolding put
  get-put_index t k key p =
      get-items (b.replace_or_insert t it).0 key
      ∙ rw (b.items-replace t it, find_item-insert_item it key (b.items t), get-items t key)
          (ground arith)
    where
      it : Item
      it = record { key = k; pos = some p }

  -- After a Delete, Get returns nil under its key, and what it did under any other.
  pub get-delete_index :
      (t : Tree) (k key : Bytes)
      → get b (delete b t k).0 key ≡ (if bytes_equal key k then none else get b t key)
  unfolding delete
  get-delete_index t k key =
      get-items (b.delete t (search_key k)).0 key
      ∙ rw
          (
            b.items-delete t (search_key k),
            find_item-delete_item k key (b.items t),
            get-items t key,
          )
          (ground arith)

  pub entries-delete_index :
      (t : Tree) (k : Bytes) → b.items (delete b t k).0 ≡ delete_item k (b.items t)
  unfolding delete
  entries-delete_index t k = b.items-delete t (search_key k)

  pub entries-ascend :
      (S : Type 0) (t : Tree) (f : Handler S) (s : S)
      → ascend b S t f s ≡ visit (visitor f) (b.items t) s
  unfolding ascend
  entries-ascend S t f s = b.ascend-items S t (visitor f) s

  pub entries-ascend_range :
      (S : Type 0) (t : Tree) (lo hi : Bytes) (f : Handler S) (s : S)
      → ascend_range b S t lo hi f s
        ≡ visit
            (visitor f)
            (keep (λ x. not (bytes_less x.key lo) && bytes_less x.key hi) (b.items t))
            s
  unfolding ascend_range
  entries-ascend_range S t lo hi f s =
      b.ascend_range-items S t (search_key lo) (search_key hi) (visitor f) s

  pub entries-ascend_greater_or_equal :
      (S : Type 0) (t : Tree) (lo : Bytes) (f : Handler S) (s : S)
      → ascend_greater_or_equal b S t lo f s
        ≡ visit (visitor f) (keep (λ x. not (bytes_less x.key lo)) (b.items t)) s
  unfolding ascend_greater_or_equal
  entries-ascend_greater_or_equal S t lo f s =
      b.ascend_greater_or_equal-items S t (search_key lo) (visitor f) s

  pub entries-descend :
      (S : Type 0) (t : Tree) (f : Handler S) (s : S)
      → descend b S t f s ≡ visit (visitor f) (reverse (b.items t)) s
  unfolding descend
  entries-descend S t f s = b.descend-items S t (visitor f) s

  pub entries-descend_range :
      (S : Type 0) (t : Tree) (hi lo : Bytes) (f : Handler S) (s : S)
      → descend_range b S t hi lo f s
        ≡ visit
            (visitor f)
            (keep (λ x. not (bytes_less hi x.key) && bytes_less lo x.key) (reverse (b.items t)))
            s
  unfolding descend_range
  entries-descend_range S t hi lo f s =
      b.descend_range-items S t (search_key hi) (search_key lo) (visitor f) s

  pub entries-descend_less_or_equal :
      (S : Type 0) (t : Tree) (hi : Bytes) (f : Handler S) (s : S)
      → descend_less_or_equal b S t hi f s
        ≡ visit (visitor f) (keep (λ x. not (bytes_less hi x.key)) (reverse (b.items t))) s
  unfolding descend_less_or_equal
  entries-descend_less_or_equal S t hi f s =
      b.descend_less_or_equal-items S t (search_key hi) (visitor f) s

  pub size-items : (t : Tree) → size b t ≡ length (b.items t)
  unfolding size
  size-items t = b.len-items t

-- NewIndexer: the index type is BTree.
unfoldable pub btree_indexer : BTree → Indexer
btree_indexer b = record {
  Index = b.Tree;
  entries = b.items;
  new_indexer = new_btree b;
  put = put b;
  get = get b;
  delete = delete b;
  size = size b;
  ascend = ascend b;
  ascend_range = ascend_range b;
  ascend_greater_or_equal = ascend_greater_or_equal b;
  descend = descend b;
  descend_range = descend_range b;
  descend_less_or_equal = descend_less_or_equal b;
  entries-IsSorted = b.items-IsSorted;
  size-entries = size-items b;
  get-entries = get-items b;
  get-new = get-new_index b;
  get-put = get-put_index b;
  get-delete = get-delete_index b;
  entries-delete = entries-delete_index b;
  ascend-entries = entries-ascend b;
  ascend_range-entries = entries-ascend_range b;
  ascend_greater_or_equal-entries = entries-ascend_greater_or_equal b;
  descend-entries = entries-descend b;
  descend_range-entries = entries-descend_range b;
  descend_less_or_equal-entries = entries-descend_less_or_equal b;
}
