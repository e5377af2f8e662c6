-- ===== src/Iterator/Prefix.antt =====
-- The test of skipToNext (iterator.go) for the prefix of the options.
use distributed_system_proje.Prelude.{
  ◌≡◌, refl, Bytes, Bool, true, false, not, ◌&&◌, ◌||◌, [], ◌∷◌, ◌==◌, ltb, length, take, arith,
  bytes_equal,
}
use distributed_system_proje.Iterator.{lacks_prefix}

-- Whether a key begins with a prefix
abbrev pub starts_with : Bytes → Bytes → Bool
starts_with [] key = true
starts_with (a ∷ prefix) [] = false
starts_with (a ∷ prefix) (b ∷ key) = a == b && starts_with prefix key

mismatch :
    (prefix key : Bytes)
    → (ltb (length key) (length prefix) || not (bytes_equal prefix (take (length prefix) key)))
      ≡ not (starts_with prefix key)
unfolding bytes_equal
mismatch [] key = ground arith
mismatch (a ∷ prefix) [] = ground arith
mismatch (a ∷ prefix) (b ∷ key) = ground (arith, mismatch prefix key)

lacks_prefix-starts_with :
    (prefix key : Bytes) → lacks_prefix prefix key ≡ not (starts_with prefix key)
unfolding lacks_prefix
lacks_prefix-starts_with [] key = refl
lacks_prefix-starts_with (a ∷ prefix) key = ground (arith, mismatch (a ∷ prefix) key)

pub has_prefix :
    (prefix key : Bytes) → lacks_prefix prefix key ≡ false → starts_with prefix key ≡ true
has_prefix prefix key p = ground (arith, lacks_prefix-starts_with prefix key)

pub has_no_prefix :
    (prefix key : Bytes) → lacks_prefix prefix key ≡ true → starts_with prefix key ≡ false
has_no_prefix prefix key p = ground (arith, lacks_prefix-starts_with prefix key)
