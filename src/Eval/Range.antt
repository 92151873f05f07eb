-- ===== src/Eval/Range.antt =====
-- Ranges: RangeVal of internal/eval/value.go with slice, count and contains, and the index into a range
-- and the bounds of a slice in internal/eval/eval.go. Numbers are 64-bit: what an operation returns
-- is wrapped. The loops of `slice` take fuel: up to the largest number the first never ends.
mod Slices
mod Tests
use cgpipe.Prelude.{
  arith, Eq, eq_iff, ◌≡◌, ◌↔◌, refl, ap, ℕ, zero, suc, ◌+◌, ◌-◌, ◌%◌, List, [], ◌∷◌, Bool, true,
  false, not, ◌&&◌, ◌||◌, Option, none, some, nat_eq, if◌then◌else◌, leb, ltb, ◌==◌,
}

-- `negsuc n` is -(n + 1).
pub data ℤ : Type 0 where
  pos negsuc : ℕ → ℤ

abbrev pub pos_part : ℤ → ℕ
pos_part (pos n) = n
pos_part (negsuc n) = 0

abbrev pub neg_part : ℤ → ℕ
neg_part (pos n) = 0
neg_part (negsuc n) = suc n

abbrev pub int_beq : ℤ → ℤ → Bool
int_beq (pos m) (pos n) = m == n
int_beq (negsuc m) (negsuc n) = m == n
int_beq (pos m) (negsuc n) = false
int_beq (negsuc m) (pos n) = false

pub int_beq_iff : (x y : ℤ) → (int_beq x y ≡ true) ↔ (x ≡ y)
int_beq_iff (pos m) (pos n) = ground (arith, eq_iff m n)
int_beq_iff (negsuc m) (negsuc n) = ground (arith, eq_iff m n)
int_beq_iff (pos m) (negsuc n) = ground arith
int_beq_iff (negsuc m) (pos n) = ground arith

instance abbrev pub int_eq : Eq ℤ
int_eq = record { beq = int_beq; beq_iff = int_beq_iff }

abbrev pub difference : ℕ → ℕ → ℤ
difference a b = if leb b a then pos (a - b) else negsuc (b - a - 1)

abbrev pub two_63 : ℕ
two_63 = 9223372036854775808

abbrev pub two_64 : ℕ
two_64 = 18446744073709551616

-- A whole number as an int64.
abbrev pub wrap_64 : ℤ → ℤ
wrap_64 (pos n) =
    let m = n % two_64 in
    if ltb n two_63 then pos n else if ltb m two_63 then pos m else negsuc (two_64 - m - 1)
wrap_64 (negsuc n) =
    let m = n % two_64 in
    if ltb n two_63 then negsuc n else if ltb m two_63 then negsuc m else pos (two_64 - m - 1)

abbrev pub add_64 : ℤ → ℤ → ℤ
add_64 a b = wrap_64 (difference (pos_part a + pos_part b) (neg_part a + neg_part b))

abbrev pub sub_64 : ℤ → ℤ → ℤ
sub_64 a b = wrap_64 (difference (pos_part a + neg_part b) (neg_part a + pos_part b))

abbrev pub le_64 : ℤ → ℤ → Bool
le_64 a b = leb (pos_part a + neg_part b) (pos_part b + neg_part a)

abbrev pub is_negative : ℤ → Bool
is_negative (pos n) = false
is_negative (negsuc n) = true

-- RangeVal
pub record Range : Type 0 where
  pub lo : ℤ
  pub hi : ℤ

abbrev onto_items : ℤ → Option (List ℤ) → Option (List ℤ)
onto_items i none = none
onto_items i (some is) = some (i ∷ is)

unfoldable pub up_from : ℕ → ℤ → ℤ → Option (List ℤ)
up_from zero i hi = none
up_from (suc fuel) i hi =
    let more = onto_items i (up_from fuel (add_64 i (pos 1)) hi) in
    if le_64 i hi then more else some []

unfoldable pub down_from : ℕ → ℤ → ℤ → Option (List ℤ)
down_from zero i hi = none
down_from (suc fuel) i hi =
    let more = onto_items i (down_from fuel (sub_64 i (pos 1)) hi) in
    if le_64 hi i then more else some []

unfoldable pub slice : ℕ → Range → Option (List ℤ)
unfolding up_from down_from
slice fuel r = if le_64 r.lo r.hi then up_from fuel r.lo r.hi else down_from fuel r.lo r.hi

abbrev magnitude : ℤ → ℤ
magnitude n = if is_negative n then sub_64 (pos 0) n else n

unfoldable pub count : Range → ℤ
count r = add_64 (magnitude (sub_64 r.hi r.lo)) (pos 1)

unfoldable pub contains : Range → ℤ → Bool
contains r x =
    if le_64 r.lo r.hi then le_64 r.lo x && le_64 x r.hi else le_64 r.hi x && le_64 x r.lo

-- An index counts from the end where it is negative.
abbrev pub from_end : ℤ → ℤ → ℤ
from_end i n = if is_negative i then add_64 i n else i

-- The index into a range of `n` values, `none` where it is out of range.
abbrev pub index_of : Range → ℤ → ℤ → Option ℤ
index_of r n i =
    if is_negative i || le_64 n i
    then none
    else if le_64 r.lo r.hi
    then some (add_64 r.lo i)
    else some (sub_64 r.lo i)

unfoldable pub range_index : Range → ℤ → Option ℤ
unfolding count
range_index r idx = index_of r (count r) (from_end idx (count r))

unfoldable pub clamp_index : ℤ → ℤ → ℤ
clamp_index i n =
    let j = from_end i n in
    if is_negative j then pos 0 else if le_64 n j && not (le_64 j n) then n else j
