-- ===== src/Tests/ListTree.antt =====
-- A google/btree tree for the tests: the list of its items, in ascending order.
use distributed_system_proje.Prelude.{refl, not, ◌&&◌, List, [], length}
use distributed_system_proje.Index.Item.{
  Item, key_less, IsSorted, keep, visit, insert_item, find_item, delete_item,
}
use distributed_system_proje.Index.Sorted.{insert_item-IsSorted, delete_item-IsSorted}
use distributed_system_proje.Index.Api.{BTree}
use mathlib.Core.List.{reverse, head?}

abbrev pub SortedItems : Type 0
SortedItems = (t : List Item) × IsSorted key_less t

abbrev pub list_tree : BTree
list_tree = record {
  Tree = SortedItems;
  items = λ t. t.0;
  new = ([], tt);
  replace_or_insert =
      λ t it. ((insert_item it t.0, insert_item-IsSorted it t.0 t.1), find_item it.key t.0);
  get = λ t it. find_item it.key t.0;
  delete =
      λ t it. ((delete_item it.key t.0, delete_item-IsSorted it.key t.0 t.1), find_item it.key t.0);
  len = λ t. length t.0;
  min_item = λ t. head? t.0;
  max_item = λ t. head? (reverse t.0);
  clone = λ t. t;
  ascend = λ S t f s. visit f t.0 s;
  descend = λ S t f s. visit f (reverse t.0) s;
  ascend_range = λ S t lo hi f s. visit f (keep (λ x. not (key_less x lo) && key_less x hi) t.0) s;
  descend_range =
      λ S t hi lo f s. visit f (keep (λ x. not (key_less hi x) && key_less lo x) (reverse t.0)) s;
  ascend_greater_or_equal = λ S t lo f s. visit f (keep (λ x. not (key_less x lo)) t.0) s;
  descend_less_or_equal = λ S t hi f s. visit f (keep (λ x. not (key_less hi x)) (reverse t.0)) s;
  items-IsSorted = λ t. t.1;
  items-new = refl;
  items-replace = λ t it. refl;
  replaced = λ t it. refl;
  get-items = λ t it. refl;
  items-delete = λ t it. refl;
  deleted = λ t it. refl;
  len-items = λ t. refl;
  min-items = λ t. refl;
  max-items = λ t. refl;
  items-clone = λ t. refl;
  ascend-items = λ S t f s. refl;
  descend-items = λ S t f s. refl;
  ascend_range-items = λ S t lo hi f s. refl;
  descend_range-items = λ S t hi lo f s. refl;
  ascend_greater_or_equal-items = λ S t lo f s. refl;
  descend_less_or_equal-items = λ S t hi f s. refl;
}
