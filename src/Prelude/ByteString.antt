-- ===== src/Prelude/ByteString.antt =====
-- Go's []byte as a list of numbers, and the functions of Go's package bytes that the program calls.
use Prim.Native.Nat.{ℕ, compare, Ordering, ◌<◌}
use mathlib.Core.Path.{◌≡◌, refl}
use mathlib.Core.Logic.{◌↔◌}
use mathlib.Core.Bool.{Bool, true, false}
use mathlib.Core.List.{List, [], ◌∷◌}
use native.Mathlib.Omega.{arith}

abbrev pub Bytes : Type 0
Bytes = List ℕ

abbrev pub IsByte : ℕ → Type 0
IsByte b = b < 256

-- `bytes.Equal`
unfoldable pub bytes_equal : Bytes → Bytes → Bool
bytes_equal [] [] = true
bytes_equal [] (b ∷ bs) = false
bytes_equal (a ∷ as') [] = false
bytes_equal (a ∷ as') (b ∷ bs) = elim (compare a b) [ Ordering.eq ↦ bytes_equal as' bs | _ ↦ false ]

-- `bytes.Compare(a, b) < 0`: the lexicographic order
unfoldable pub bytes_less : Bytes → Bytes → Bool
bytes_less [] [] = false
bytes_less [] (b ∷ bs) = true
bytes_less (a ∷ as') [] = false
bytes_less (a ∷ as') (b ∷ bs) = elim (compare a b) [
  | Ordering.lt ↦ true
  | Ordering.eq ↦ bytes_less as' bs
  | Ordering.gt ↦ false
]

pub bytes_equal-eq : (a b : Bytes) → bytes_equal a b ≡ true → a ≡ b
unfolding bytes_equal
bytes_equal-eq [] [] h = refl
bytes_equal-eq [] (b ∷ bs) h = ground arith
bytes_equal-eq (a ∷ as') [] h = ground arith
bytes_equal-eq (a ∷ as') (b ∷ bs) h = ground (arith, bytes_equal-eq as' bs)

pub bytes_equal_refl : (a : Bytes) → bytes_equal a a ≡ true
unfolding bytes_equal
bytes_equal_refl [] = refl
bytes_equal_refl (a ∷ as') = ground (arith, bytes_equal_refl as')

pub bytes_equal_iff : (a b : Bytes) → (bytes_equal a b ≡ true) ↔ (a ≡ b)
bytes_equal_iff a b = (bytes_equal-eq a b, λ e. rw e (bytes_equal_refl b))

-- The order is strict and total.
pub bytes_less_irrefl : (a : Bytes) → bytes_less a a ≡ false
unfolding bytes_less
bytes_less_irrefl [] = refl
bytes_less_irrefl (a ∷ as') = ground (arith, bytes_less_irrefl as')

pub bytes_less_trans :
    (a b c : Bytes) → bytes_less a b ≡ true → bytes_less b c ≡ true → bytes_less a c ≡ true
unfolding bytes_less
bytes_less_trans [] [] c p q = ground arith
bytes_less_trans [] (b ∷ bs) [] p q = ground arith
bytes_less_trans [] (b ∷ bs) (c ∷ cs) p q = refl
bytes_less_trans (a ∷ as') [] c p q = ground arith
bytes_less_trans (a ∷ as') (b ∷ bs) [] p q = ground arith
bytes_less_trans (a ∷ as') (b ∷ bs) (c ∷ cs) p q = ground (arith, bytes_less_trans as' bs cs)

pub bytes_less_total :
    (a b : Bytes) → bytes_less a b ≡ false → bytes_equal a b ≡ false → bytes_less b a ≡ true
unfolding bytes_less bytes_equal
bytes_less_total [] [] p q = ground arith
bytes_less_total [] (b ∷ bs) p q = ground arith
bytes_less_total (a ∷ as') [] p q = refl
bytes_less_total (a ∷ as') (b ∷ bs) p q = ground (arith, bytes_less_total as' bs)
