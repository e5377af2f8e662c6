-- ===== src/Index/Btree/Walking.antt =====
-- memoryBTreeIterator of index/btree.go is an IndexIterator.
use distributed_system_proje.Prelude.{
  ◌≡◌, refl, ap, sym, ◌∙◌, subst, append_assoc, Bool, some, List, [], ◌∷◌, ◌++◌, if◌then◌else◌,
}
use distributed_system_proje.Index.Item.{IsSorted, Item}
use distributed_system_proje.Index.Api.{BTree, IndexIterator}
use distributed_system_proje.Index.Btree.Laws.{btree_indexer}
use distributed_system_proje.Index.Btree.Iterator.{
  Iterator, new_iterator, rewind, seek, next, valid, key, value, close,
}
use distributed_system_proje.Index.Btree.Traverse.{
  walk_less, sequence, at, sequence-IsSorted, next-at, new_iterator-at,
}
use mathlib.Core.List.{reverse}

module _ (b : BTree) where
  -- The iterator stands on the first of these items of its tree.
  pub record StandsOn (it : Iterator b) (xs : List Item) : Type 0 where
    pub tree : b.Tree
    pub backwards : Bool
    pub before : List Item
    pub here : it ≡ at b tree backwards xs
    pub split : sequence b backwards tree ≡ before ++ xs
    pub sorted : IsSorted (walk_less backwards) (before ++ xs)

  pub fresh-StandsOn :
      (t : b.Tree) (backwards : Bool)
      → StandsOn (new_iterator b t backwards) (sequence b backwards t)
  fresh-StandsOn t backwards = record {
    tree = b.clone t;
    backwards = backwards;
    before = [];
    here = new_iterator-at b t backwards;
    split = ap (λ l. if backwards then reverse l else l) (b.items-clone t);
    sorted = sequence-IsSorted b backwards t (b.items-IsSorted t);
  }

  pub next-StandsOn :
      (it : Iterator b) (x : Item) (xs : List Item)
      → StandsOn it (x ∷ xs)
      → (it' : Iterator b) × (next b it ≡ some it') × StandsOn it' xs
  next-StandsOn it x xs s = (
    at b s.tree s.backwards xs,
    ap (next b) s.here ∙ next-at b s.tree s.backwards s.before x xs s.split s.sorted,
    record {
      tree = s.tree;
      backwards = s.backwards;
      before = s.before ++ (x ∷ []);
      here = refl;
      split = s.split ∙ sym (append_assoc s.before (x ∷ []) xs);
      sorted =
          subst (IsSorted (walk_less s.backwards)) (sym (append_assoc s.before (x ∷ []) xs))
            s.sorted;
    },
  )

  unfoldable pub btree_iterator : IndexIterator (btree_indexer b)
  unfolding btree_indexer new_iterator rewind seek next valid key value close
  btree_iterator = record {
    Iter = Iterator b;
    iterator = new_iterator b;
    rewind = rewind b;
    seek = seek b;
    next = next b;
    valid = valid b;
    key = key b;
    value = value b;
    close = close b;
    Left = StandsOn;
    iterator-Left = fresh-StandsOn;
    valid_at_end = λ it s. ap (valid b) s.here;
    valid_before = λ it x xs s. ap (valid b) s.here;
    key-Left = λ it x xs s. ap (key b) s.here;
    value-Left = λ it x xs s. ap (value b) s.here;
    next-Left = next-StandsOn;
  }
