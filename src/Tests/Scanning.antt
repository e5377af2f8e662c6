-- ===== src/Tests/Scanning.antt =====
-- The iterations of db.go and the iterator of iterator.go at concrete inputs.
use distributed_system_proje.Prelude.{
  ◌&&◌, ◌≡◌, Bytes, not, ◌&&◌, true, false, none, some, List, [], ◌∷◌, arith, bytes_less,
}
use distributed_system_proje.Prelude.Int.{pos}
use distributed_system_proje.Store.{ok}
use distributed_system_proje.Index.Item.{visit}
use distributed_system_proje.Database.Scan.{iterations_visit-live_pairs}
use distributed_system_proje.Database.Keys.{key_iterations_visit_live_keys, key_answer}
use distributed_system_proje.Database.Walk.{pair_visitor, live_pairs}
use distributed_system_proje.Database.Iterate.{
  ValueHandler, matcher, ascend, ascend_range, ascend_greater_or_equal, descend, descend_range,
  descend_less_or_equal, ascend_keys, descend_keys,
}
use distributed_system_proje.Index.Item.{visit, keep}
use mathlib.Core.List.{reverse}
use distributed_system_proje.Iterator.{IteratorOptions, new_iterator, drain}
use distributed_system_proje.Iterator.Walk.{selected, ordered, drain-selected}
use distributed_system_proje.Index.Btree.Walking.{btree_iterator}
use distributed_system_proje.Tests.ListTree.{list_tree}
use distributed_system_proje.Prelude.{◌>>=◌}
use distributed_system_proje.Tests.Engine.{test_env}
use distributed_system_proje.Tests.Storing.{stored_db, stored_db-IsReady, stored_db-HasPositions}

-- A caller that collects the values
abbrev collect : ValueHandler (List Bytes)
collect key value s = ((true, none), value ∷ s)

iterations_visit-live_pairs_example :
    (ascend test_env stored_db (λ k. pos 5) collect []
      ≡ some (
          visit
            (pair_visitor collect)
            (live_pairs test_env stored_db (λ k. pos 5) (test_env.indexer.entries stored_db.index))
            []))
    × (ascend_range test_env stored_db (λ k. pos 5) (1 ∷ []) (2 ∷ []) collect []
        ≡ some (
            visit
              (pair_visitor collect)
              (live_pairs test_env stored_db
                (λ k. pos 5)
                (keep
                  (λ x. not (bytes_less x.key (1 ∷ [])) && bytes_less x.key (2 ∷ []))
                  (test_env.indexer.entries stored_db.index)))
              []))
    × (ascend_greater_or_equal test_env stored_db (λ k. pos 5) (1 ∷ []) collect []
        ≡ some (
            visit
              (pair_visitor collect)
              (live_pairs test_env stored_db
                (λ k. pos 5)
                (keep
                  (λ x. not (bytes_less x.key (1 ∷ [])))
                  (test_env.indexer.entries stored_db.index)))
              []))
    × (descend test_env stored_db (λ k. pos 5) collect []
        ≡ some (
            visit
              (pair_visitor collect)
              (live_pairs test_env stored_db
                (λ k. pos 5)
                (reverse (test_env.indexer.entries stored_db.index)))
              []))
    × (descend_range test_env stored_db (λ k. pos 5) (1 ∷ []) (2 ∷ []) collect []
        ≡ some (
            visit
              (pair_visitor collect)
              (live_pairs test_env stored_db
                (λ k. pos 5)
                (keep
                  (λ x. not (bytes_less (1 ∷ []) x.key) && bytes_less (2 ∷ []) x.key)
                  (reverse (test_env.indexer.entries stored_db.index))))
              []))
    × (descend_less_or_equal test_env stored_db (λ k. pos 5) (1 ∷ []) collect []
        ≡ some (
            visit
              (pair_visitor collect)
              (live_pairs test_env stored_db
                (λ k. pos 5)
                (keep
                  (λ x. not (bytes_less (1 ∷ []) x.key))
                  (reverse (test_env.indexer.entries stored_db.index))))
              []))
iterations_visit-live_pairs_example =
    iterations_visit-live_pairs test_env stored_db (λ k. pos 5) collect [] (1 ∷ []) (2 ∷ [])
      stored_db-IsReady stored_db-HasPositions

key_iterations_visit_live_keys_example :
    (ascend_keys test_env stored_db
        (λ k. pos 5)
        (λ p. ok (λ k. true))
        []
        true
        (λ k s. ((true, none), k ∷ s))
        []
      ≡ key_answer test_env stored_db
          (λ k. pos 5)
          (λ k s. ((true, none), k ∷ s))
          []
          (test_env.indexer.entries stored_db.index)
          (matcher (λ p. ok (λ k. true)) []))
    × (descend_keys test_env stored_db
          (λ k. pos 5)
          (λ p. ok (λ k. true))
          []
          true
          (λ k s. ((true, none), k ∷ s))
          []
        ≡ key_answer test_env stored_db
            (λ k. pos 5)
            (λ k s. ((true, none), k ∷ s))
            []
            (reverse (test_env.indexer.entries stored_db.index))
            (matcher (λ p. ok (λ k. true)) []))
key_iterations_visit_live_keys_example =
    key_iterations_visit_live_keys test_env stored_db (λ k. pos 5) (λ p. ok (λ k. true)) []
      (λ k s. ((true, none), k ∷ s)) [] stored_db-IsReady stored_db-HasPositions

-- A backward walk over the keys that begin with 1
abbrev backward_options : IteratorOptions
backward_options = record { prefix = 1 ∷ []; reverse = true; continue_on_error = false }

drain-selected_example :
    (new_iterator test_env (btree_iterator list_tree) 9 stored_db (λ k. pos 5) backward_options
      >>= (λ it. drain test_env (btree_iterator list_tree) 9 9 stored_db (λ k. pos 5) it))
    ≡ some (
        selected test_env
          (btree_iterator list_tree)
          stored_db
          (λ k. pos 5)
          stored_db-IsReady.sound
          backward_options
          (ordered test_env
            (btree_iterator list_tree)
            stored_db
            (λ k. pos 5)
            stored_db-IsReady.sound
            true))
unfolding stored_db
drain-selected_example =
    drain-selected test_env (btree_iterator list_tree) stored_db (λ k. pos 5)
      stored_db-IsReady.sound 9 9 backward_options stored_db-HasPositions (omega arith)
      (omega arith)
