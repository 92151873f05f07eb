-- ===== src/Eval/Range/Tests.antt =====
-- Ranges at -1..2.
use cgpipe.Prelude.{ℕ, suc, List, [], ◌∷◌, some, none, ◌-◌, ◌<◌, ◌≤◌, ◌≡◌, refl, length, arith}
use cgpipe.Eval.Range.{
  two_63, ℤ, pos, negsuc, pos_part, neg_part, slice, count, range_index, clamp_index,
}
use cgpipe.Eval.Range.Slices.{upward, item_at, clamp_index_bounds, range_index_lem}

sliced : slice 6 (upward (negsuc 0) 3) ≡ some (negsuc 0 ∷ pos 0 ∷ pos 1 ∷ pos 2 ∷ [])
unfolding slice
sliced = refl

range_index_lem_example :
    (items : List ℤ) × (slice 6 (upward (negsuc 0) 3) ≡ some items)
    × (count (upward (negsuc 0) 3) ≡ pos (length items))
    × ((j : ℕ) → j < length items → range_index (upward (negsuc 0) 3) (pos j) ≡ item_at j items)
    × ((j : ℕ)
        → j < length items
        → range_index (upward (negsuc 0) 3) (negsuc j) ≡ item_at (length items - suc j) items)
    × ((j : ℕ) → length items ≤ j → range_index (upward (negsuc 0) 3) (pos j) ≡ none)
    × ((j : ℕ)
        → length items ≤ j
        → j < two_63
        → range_index (upward (negsuc 0) 3) (negsuc j) ≡ none)
range_index_lem_example =
    range_index_lem (negsuc 0) 3 (omega arith) (omega arith) (omega arith) 6 (omega arith)

clamp_index_bounds_example :
    (pos_part (clamp_index (negsuc 1) (pos 5)) ≤ 5)
    × (neg_part (clamp_index (negsuc 1) (pos 5)) ≡ 0)
clamp_index_bounds_example = clamp_index_bounds (negsuc 1) 5 (omega arith) (omega arith)
