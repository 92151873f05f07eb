-- ===== src/Eval/Range/Slices.antt =====
-- A range is counted and indexed as the list that it stands for.
use cgpipe.Prelude.{
  ℕ, zero, suc, ◌+◌, ◌-◌, ◌<◌, ◌≤◌, List, [], ◌∷◌, true, false, Option, none, some, nat_eq, length,
  ◌≡◌, refl, sym, ap, ◌∙◌, arith,
}
use cgpipe.Eval.Range.{
  ℤ, pos, negsuc, pos_part, neg_part, difference, two_63, add_64, le_64, is_negative, Range,
  up_from, slice, count, from_end, index_of, range_index, clamp_index,
}

-- `clampIndex` returns a place within a list of `n` items or its end, for every index from -2^63 on and
-- fewer than 2^63 items.
pub clamp_index_bounds :
    (i : ℤ) (n : ℕ)
    → n < two_63
    → (neg_part i ≤ two_63)
    → (pos_part (clamp_index i (pos n)) ≤ n) × (neg_part (clamp_index i (pos n)) ≡ 0)
unfolding clamp_index
clamp_index_bounds i n small low = ground arith

-- `n` numbers from `i` on.
abbrev pub ascending : ℕ → ℤ → List ℤ
ascending zero i = []
ascending (suc n) i = i ∷ ascending n (difference (suc (pos_part i)) (neg_part i))

add_one :
    (i : ℤ)
    → suc (pos_part i) < two_63 + neg_part i
    → neg_part i ≤ two_63
    → add_64 i (pos 1) ≡ difference (suc (pos_part i)) (neg_part i)
add_one (pos n) h low = ground arith
add_one (negsuc n) h low = ground arith

abbrev pub plus : ℤ → ℕ → ℤ
plus i k = difference (pos_part i + k) (neg_part i)

plus-suc : (i : ℤ) (k : ℕ) → plus (difference (suc (pos_part i)) (neg_part i)) k ≡ plus i (suc k)
plus-suc (pos n) k = ground arith
plus-suc (negsuc n) k = ground arith

plus-le : (i : ℤ) (k : ℕ) → le_64 i (plus i k) ≡ true
plus-le (pos n) k = ground arith
plus-le (negsuc n) k = ground arith

suc_gt : (i : ℤ) → le_64 (difference (suc (pos_part i)) (neg_part i)) i ≡ false
suc_gt (pos n) = ground arith
suc_gt (negsuc n) = ground arith

plus_zero : (i : ℤ) → plus i 0 ≡ i
plus_zero (pos n) = ground arith
plus_zero (negsuc n) = ground arith

next_parts :
    (i : ℤ) (k : ℕ)
    → pos_part i + suc k < two_63 + neg_part i
    → neg_part i ≤ two_63
    → (pos_part (difference (suc (pos_part i)) (neg_part i)) + k
        < two_63 + neg_part (difference (suc (pos_part i)) (neg_part i)))
      × (neg_part (difference (suc (pos_part i)) (neg_part i)) ≤ two_63)
next_parts (pos n) k h low = ground arith
next_parts (negsuc n) k h low = ground arith

step_up :
    (fuel : ℕ) (i hi : ℤ) (rest : List ℤ)
    → le_64 i hi ≡ true
    → up_from fuel (add_64 i (pos 1)) hi ≡ some rest
    → up_from (suc fuel) i hi ≡ some (i ∷ rest)
unfolding up_from
step_up fuel i hi rest le e = rw (le, e)

stop_up : (fuel : ℕ) (i hi : ℤ) → le_64 i hi ≡ false → up_from (suc fuel) i hi ≡ some []
unfolding up_from
stop_up fuel i hi le = rw le

up_from-ascending :
    (fuel k : ℕ) (i : ℤ)
    → k + 2 ≤ fuel
    → pos_part i + suc k < two_63 + neg_part i
    → neg_part i ≤ two_63
    → up_from fuel i (plus i k) ≡ some (ascending (suc k) i)
up_from-ascending zero k i enough h low = absurd (omega (arith, enough))
up_from-ascending (suc zero) k i enough h low = absurd (omega (arith, enough))
up_from-ascending (suc (suc fuel)) zero i enough h low =
    step_up (suc fuel) i (plus i 0) [] (plus-le i 0) (
      ap (λ j. up_from (suc fuel) j (plus i 0)) (add_one i (omega (arith, h)) low)
      ∙ stop_up fuel _ (plus i 0)
          (ap (le_64 (difference (suc (pos_part i)) (neg_part i))) (plus_zero i) ∙ suc_gt i))
up_from-ascending (suc (suc fuel)) (suc k) i enough h low =
    let next = difference (suc (pos_part i)) (neg_part i) in
    let (h', low') = next_parts i (suc k) h low in
    step_up (suc fuel) i (plus i (suc k)) (ascending (suc k) next) (plus-le i (suc k)) (
      ap (λ j. up_from (suc fuel) j (plus i (suc k))) (add_one i (omega (arith, h)) low)
      ∙ (ap (up_from (suc fuel) next) (sym (plus-suc i k))
          ∙ up_from-ascending (suc fuel) k next (omega (arith, enough)) h' low'))

length-ascending : (n : ℕ) (i : ℤ) → length (ascending n i) ≡ n
length-ascending zero i = refl
length-ascending (suc n) i = ap suc (length-ascending n _)

-- The item at a place of a list.
unfoldable pub item_at : ℕ → List ℤ → Option ℤ
item_at n [] = none
item_at zero (x ∷ xs) = some x
item_at (suc n) (x ∷ xs) = item_at n xs

item_at-ascending : (n j : ℕ) (i : ℤ) → j < n → item_at j (ascending n i) ≡ some (plus i j)
unfolding item_at
item_at-ascending zero j i less = absurd (omega (arith, less))
item_at-ascending (suc n) zero i less = ap some (sym (plus_zero i))
item_at-ascending (suc n) (suc j) i less =
    item_at-ascending n j _ (omega (arith, less)) ∙ ap some (plus-suc i j)

count_up :
    (i : ℤ) (k : ℕ)
    → pos_part i + suc k < two_63 + neg_part i
    → neg_part i ≤ two_63
    → suc k < two_63
    → count (record { lo = i; hi = plus i k }) ≡ pos (suc k)
unfolding count
count_up (pos n) k h low small = ground arith
count_up (negsuc n) k h low small = ground arith

add_up :
    (i : ℤ) (k : ℕ)
    → pos_part i + suc k < two_63 + neg_part i
    → neg_part i ≤ two_63
    → add_64 i (pos k) ≡ plus i k
add_up (pos n) k h low = ground arith
add_up (negsuc n) k h low = ground arith

module _ (i : ℤ) (k : ℕ) where
  -- The range from `i` to `i + k`.
  abbrev pub upward : Range
  upward = record { lo = i; hi = plus i k }

  index_of-inside :
      (j : ℕ) → j < suc k → index_of upward (pos (suc k)) (pos j) ≡ some (add_64 i (pos j))
  index_of-inside j less = rw (plus-le i k) (ground (arith, less))

  index_of-outside : (j : ℕ) → suc k ≤ j → index_of upward (pos (suc k)) (pos j) ≡ none
  index_of-outside j le = ground (arith, le)

  from_end-back :
      (j : ℕ) → j < suc k → suc k < two_63 → from_end (negsuc j) (pos (suc k)) ≡ pos (k - j)
  from_end-back j less small = ground (arith, less, small)

  from_end-negative :
      (j : ℕ) → suc k ≤ j → j < two_63 → is_negative (from_end (negsuc j) (pos (suc k))) ≡ true
  from_end-negative j le small = ground (arith, le, small)

  module _ (below_top : pos_part i + suc k < two_63 + neg_part i) (int64 : neg_part i ≤ two_63)
      (small : suc k < two_63) where
    range_index-count :
        (j : ℤ) → range_index upward j ≡ index_of upward (pos (suc k)) (from_end j (pos (suc k)))
    unfolding range_index
    range_index-count j =
        ap (λ n. index_of upward n (from_end j n)) (count_up i k below_top int64 small)

    range_index-front :
        (j : ℕ) → j < suc k → range_index upward (pos j) ≡ item_at j (ascending (suc k) i)
    range_index-front j less =
        range_index-count (pos j)
        ∙ (index_of-inside j less
            ∙ (ap some (add_up i j (omega (arith, below_top, less)) int64)
                ∙ sym (item_at-ascending (suc k) j i less)))

    range_index-back :
        (j : ℕ) → j < suc k → range_index upward (negsuc j) ≡ item_at (k - j) (ascending (suc k) i)
    range_index-back j less =
        range_index-count (negsuc j)
        ∙ (ap (index_of upward (pos (suc k))) (from_end-back j less small)
            ∙ (index_of-inside (k - j) (omega arith)
                ∙ (ap some (add_up i (k - j) (omega (arith, below_top, less)) int64)
                    ∙ sym (item_at-ascending (suc k) (k - j) i (omega arith)))))

    -- A range that goes up, to a bound below the largest number, with fewer than 2 ^ 63 numbers: for
    -- enough fuel `slice` returns a list; `count` is its length, an index from the front or from the
    -- back finds what the list has there, and an index of an int64 beyond either end is out of range.
    pub range_index_lem :
        (fuel : ℕ)
        → k + 2 ≤ fuel
        → (items : List ℤ) × (slice fuel upward ≡ some items)
          × (count upward ≡ pos (length items))
          × ((j : ℕ) → j < length items → range_index upward (pos j) ≡ item_at j items)
          × ((j : ℕ)
              → j < length items
              → range_index upward (negsuc j) ≡ item_at (length items - suc j) items)
          × ((j : ℕ) → length items ≤ j → range_index upward (pos j) ≡ none)
          × ((j : ℕ) → length items ≤ j → j < two_63 → range_index upward (negsuc j) ≡ none)
    unfolding slice
    range_index_lem fuel enough =
        let n : length (ascending (suc k) i) ≡ suc k = length-ascending (suc k) i in
        (
          ascending (suc k) i,
          rw (plus-le i k) (up_from-ascending fuel k i enough below_top int64),
          count_up i k below_top int64 small ∙ ap pos (sym n),
          λ j less. range_index-front j (omega (arith, less, n)),
          λ j less.
              range_index-back j (omega (arith, less, n))
              ∙ ap (λ m. item_at m (ascending (suc k) i)) (omega (arith, n)),
          λ j le. range_index-count (pos j) ∙ index_of-outside j (omega (arith, le, n)),
          λ j le inside.
              range_index-count (negsuc j)
              ∙ rw (from_end-negative j (omega (arith, le, n)) inside) refl,
        )
