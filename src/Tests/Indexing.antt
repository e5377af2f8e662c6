-- ===== src/Tests/Indexing.antt =====
-- The index of index/btree.go at concrete inputs.
use distributed_system_proje.Prelude.{ℕ, ◌≡◌, refl, true, some, [], ◌∷◌, arith, bytes_less}
use distributed_system_proje.Prelude.Int.{pos}
use distributed_system_proje.Record.{ChunkPosition}
use distributed_system_proje.Index.Item.{Item}
use distributed_system_proje.Index.Btree.Iterator.{new_iterator, drain}
use distributed_system_proje.Index.Btree.Traverse.{sequence, drain-new_iterator}
use distributed_system_proje.Tests.ListTree.{list_tree, SortedItems}

abbrev chunk_at : ℕ → ChunkPosition
chunk_at n = record { segment_id = n; block_number = 0; chunk_offset = pos 0; chunk_size = 8 }

abbrev entry : ℕ → Item
entry n = record { key = n ∷ []; pos = some (chunk_at n) }

abbrev two_items : SortedItems
unfolding bytes_less
two_items = (entry 1 ∷ entry 2 ∷ [], ((refl, tt), (tt, tt)))

drain-new_iterator_example :
    drain list_tree 3 (new_iterator list_tree two_items true)
    ≡ some (sequence list_tree true two_items)
unfolding bytes_less
drain-new_iterator_example = drain-new_iterator list_tree two_items true 3 two_items.1 (omega arith)
