-- ===== src/Record/Varint.antt =====
-- The variable-length integers of Go's package encoding/binary that record.go writes and reads, and
-- the slices that it takes of a buffer (a slice out of range panics: `none`).
use distributed_system_proje.Prelude.{
  ℕ, zero, suc, ◌+◌, ◌-◌, ◌*◌, ◌/◌, ◌%◌, ◌^◌, ◌≤◌, ◌<◌, ◌≡◌, refl, ap, ap₂, subst, ltb→lt, ◌∙◌,
  Bytes, ◌&&◌, Option, none, some, [], ◌∷◌, ◌++◌, arith, inl, inr, Bool-cases, ltb, leb, ◌==◌,
  if◌then◌else◌, length, length-append, drop, take,
}
use distributed_system_proje.Prelude.Int.{ℤ, pos, negsuc, to_bits, IsInt64}
use native.Mathlib.Numerals.{towards_suc}
use native.Mathlib.Nat.{div-add-mod}

-- `binary.PutUvarint`: seven bits a byte, lowest first; the first argument counts the rounds left.
put_uvarint_loop : ℕ → ℕ → Bytes
put_uvarint_loop zero v = (v % 256) ∷ []
put_uvarint_loop (suc k) v =
    let rest = put_uvarint_loop k (v / 128) in if ltb v 128 then v ∷ [] else (v % 128 + 128) ∷ rest

-- Nine rounds and a last byte hold 64 bits.
unfoldable pub put_uvarint : ℕ → Bytes
unfolding put_uvarint_loop
put_uvarint v = put_uvarint_loop 9 v

-- `binary.Uvarint` from byte `i` on. The bits of `x` stand below the shift, so Go's `|` is a sum.
-- The count is 0 on a short buffer, and -(i + 1) on an overflow.
uvarint_loop : Bytes → ℕ → ℕ → ℕ → ℕ × ℤ
uvarint_loop [] i x s = (0, pos 0)
uvarint_loop (b ∷ bs) i x s =
    let more = uvarint_loop bs (i + 1) (x + b % 128 * 2 ^ s % 2 ^ 64) (s + 7) in
    if i == 10
    then (0, negsuc i)
    else if ltb b 128
    then (if i == 9 && ltb 1 b then (0, negsuc i) else (x + b * 2 ^ s % 2 ^ 64, pos (i + 1)))
    else more

unfoldable pub uvarint : Bytes → ℕ × ℤ
unfolding uvarint_loop
uvarint bs = uvarint_loop bs 0 0 0

-- `binary.PutVarint` and `binary.Varint`: the sign goes to the lowest bit.
abbrev pub to_zigzag : ℤ → ℕ
to_zigzag (pos n) = to_bits (pos n) * 2 % 2 ^ 64
to_zigzag (negsuc n) = 2 ^ 64 - 1 - to_bits (negsuc n) * 2 % 2 ^ 64

abbrev pub from_zigzag : ℕ → ℤ
from_zigzag ux = if (ux % 2) == 0 then pos (ux / 2) else negsuc (ux / 2)

pub from_zigzag-to_zigzag : (z : ℤ) → IsInt64 z → from_zigzag (to_zigzag z) ≡ z
from_zigzag-to_zigzag (pos n) h = ground arith
from_zigzag-to_zigzag (negsuc n) h = ground arith

pub to_zigzag-lt : (z : ℤ) → to_zigzag z < 2 ^ 64
to_zigzag-lt (pos n) = omega arith
to_zigzag-lt (negsuc n) = omega arith

-- The bytes of a number in one piece: what PutUvarint writes for a number below 128 ^ (k + 1).
length-put_uvarint_loop :
    (k v j : ℕ)
    → v < 128 ^ suc j
    → j ≤ k
    → (1 ≤ length (put_uvarint_loop k v)) × (length (put_uvarint_loop k v) ≤ j + 1)
unfolding put_uvarint_loop
length-put_uvarint_loop zero v j h le = omega arith
length-put_uvarint_loop (suc k) v zero h le = ground arith
length-put_uvarint_loop (suc k) v (suc j) h le =
    ground (arith, length-put_uvarint_loop k (v / 128) j (omega arith))

shift_seven : (s : ℕ) → 2 ^ (s + 7) ≡ 128 * 2 ^ s
shift_seven s = simp towards_suc (omega arith)

-- One byte of `uvarint_loop`: the last one, and one with the top bit set over the group `g`.
last_byte :
    (v i x s : ℕ) (rest : Bytes)
    → v < 128
    → i ≤ 9
    → (i ≡ 9 → v ≤ 1)
    → x + v * 2 ^ s < 2 ^ 64
    → uvarint_loop (v ∷ rest) i x s ≡ (x + v * 2 ^ s, pos (i + 1))
unfolding uvarint_loop
last_byte v i x s rest hv hi ht fits = ground arith

inner_byte :
    (g i x s : ℕ) (rest : Bytes)
    → g < 128
    → i < 9
    → x + g * 2 ^ s < 2 ^ 64
    → uvarint_loop ((g + 128) ∷ rest) i x s ≡ uvarint_loop rest (i + 1) (x + g * 2 ^ s) (s + 7)
unfolding uvarint_loop
inner_byte g i x s rest hg hi fits = ground arith

top_bit : (v i x s : ℕ) → s ≡ 7 * i → x + v * 2 ^ s < 2 ^ 64 → i ≡ 9 → v ≤ 1
top_bit v i x s e h k =
    let s63 : s ≡ 63 = omega arith in
    let h' : x + v * 2 ^ 63 < 2 ^ 64 = subst (λ t. x + v * 2 ^ t < 2 ^ 64) s63 h in omega arith

-- The lowest group of `v` and the rest, both shifted by `s`.
split_group : (v s : ℕ) → v * 2 ^ s ≡ v % 128 * 2 ^ s + v / 128 * 2 ^ (s + 7)
split_group v s = omega (
  arith,
  ap (λ (t : ℕ). t * 2 ^ s) (div-add-mod v 128),
  ap (λ (t : ℕ). v / 128 * t) (shift_seven s),
)

uvarint_loop-put :
    (k v i x s : ℕ) (rest : Bytes)
    → v < 128 ^ suc k
    → i + k ≡ 9
    → s ≡ 7 * i
    → x + v * 2 ^ s < 2 ^ 64
    → uvarint_loop (put_uvarint_loop k v ++ rest) i x s
      ≡ (x + v * 2 ^ s, pos (i + length (put_uvarint_loop k v)))
unfolding put_uvarint_loop
uvarint_loop-put zero v i x s rest hv hk hs fits =
    rw (small_byte)
      (last_byte v i x s rest (omega arith) (omega arith) (top_bit v i x s hs fits) fits)
  where
    small_byte : v % 256 ≡ v
    small_byte = omega arith
uvarint_loop-put (suc k) v i x s rest hv hk hs fits = elim (Bool-cases (ltb v 128)) [
  | inl small ↦
      rw small
        (last_byte v i x s rest (ltb→lt v 128 small) (omega arith) (top_bit v i x s hs fits) fits)
  | inr big ↦ rw big (
      inner_byte (v % 128) i x s (put_uvarint_loop k (v / 128) ++ rest) (omega arith) (omega arith)
        (omega (arith, split_group v s))
      ∙ uvarint_loop-put k (v / 128) (i + 1) (x + v % 128 * 2 ^ s) (s + 7) rest (omega arith)
          (omega arith) (omega arith) (omega (arith, split_group v s))
      ∙ ap₂ (λ n c. (n, pos c)) (omega (arith, split_group v s)) (omega arith))
]

-- `Uvarint` reads back the uint64 that `PutUvarint` wrote, and counts its bytes, whatever follows.
pub uvarint-put_uvarint :
    (v : ℕ) (rest : Bytes)
    → v < 2 ^ 64
    → uvarint (put_uvarint v ++ rest) ≡ (v, pos (length (put_uvarint v)))
unfolding uvarint put_uvarint
uvarint-put_uvarint v rest h =
    uvarint_loop-put 9 v 0 0 0 rest (omega arith) refl refl (omega arith)
    ∙ ap₂ (λ n c. (n, pos c)) (omega arith) (omega arith)

-- A number below 128 ^ (j + 1) takes 1 to j + 1 bytes.
pub length-put_uvarint :
    (v j : ℕ)
    → v < 128 ^ suc j
    → j ≤ 9
    → (1 ≤ length (put_uvarint v)) × (length (put_uvarint v) ≤ j + 1)
unfolding put_uvarint
length-put_uvarint v j h le = length-put_uvarint_loop 9 v j h le

-- `buf[lo:]` and `buf[lo:hi]`; the capacity of a buffer is its length.
unfoldable pub slice_from : Bytes → ℕ → Option Bytes
slice_from buf lo = if leb lo (length buf) then some (drop lo buf) else none

unfoldable pub slice : Bytes → ℕ → ℕ → Option Bytes
slice buf lo hi =
    if leb lo hi && leb hi (length buf) then some (take (hi - lo) (drop lo buf)) else none

drop-length : (pre rest : Bytes) → drop (length pre) (pre ++ rest) ≡ rest
drop-length [] rest = refl
drop-length (b ∷ pre) rest = drop-length pre rest

take-length : (pre rest : Bytes) → take (length pre) (pre ++ rest) ≡ pre
take-length [] rest = refl
take-length (b ∷ pre) rest = ap (◌∷◌ b) (take-length pre rest)

pub slice_from-append : (pre rest : Bytes) → slice_from (pre ++ rest) (length pre) ≡ some rest
unfolding slice_from
slice_from-append pre rest = ground (arith, length-append pre rest, drop-length pre rest)

pub slice-append :
    (pre mid rest : Bytes)
    → slice (pre ++ (mid ++ rest)) (length pre) (length pre + length mid) ≡ some mid
unfolding slice
slice-append pre mid rest = ground (
  arith,
  length-append pre (mid ++ rest),
  length-append mid rest,
  drop-length pre (mid ++ rest),
  take_all,
)
  where
    take_all : take (length pre + length mid - length pre) (mid ++ rest) ≡ mid
    take_all = ap (λ n. take n (mid ++ rest)) (omega arith) ∙ take-length mid rest
