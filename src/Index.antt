-- ===== src/Index.antt =====
-- index/index.go and index/btree.go: the ordered map from keys to positions.
pub mod Item
pub mod Api
pub mod Sorted
pub mod Btree
