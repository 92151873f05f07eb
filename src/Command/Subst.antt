-- ===== src/Command/Subst.antt =====
-- cmd/cgpipe/subst.go: the placeholders of `cgp sub`. filepath.Base and strconv.Itoa are parameters.
mod Plain
mod Tests
use cgpipe.Prelude.{
  ℕ, zero, suc, ◌+◌, ◌-◌, List, [], ◌∷◌, ◌++◌, map, Bool, true, false, ◌||◌, Option, none, some,
  list_eq, nat_eq, if◌then◌else◌, ◌==◌, length, take, drop,
}
use cgpipe.Text.{Str, codes, has_prefix, has_suffix, index_byte, slice}

-- strings.TrimSuffix
unfoldable trim_suffix : Str → Str → Str
unfolding has_suffix
trim_suffix s suffix = if has_suffix s suffix then take (length s - length suffix) s else s

-- expandPlaceholder; `idx` is the index in decimal digits
unfoldable expand_placeholder : Str → Str → Str → Str → Option Str
unfolding trim_suffix has_prefix
expand_placeholder inner file base idx =
    if inner == [] || inner == codes "^"
    then some file
    else if inner == codes "@"
    then some base
    else if inner == codes "#"
    then some idx
    else if has_prefix inner (codes "^")
    then some (trim_suffix file (drop 1 inner))
    else if has_prefix inner (codes "@")
    then some (trim_suffix base (drop 1 inner))
    else none

abbrev or_verbatim : Option Str → Str → Str
or_verbatim (some repl) verbatim = repl
or_verbatim none verbatim = verbatim

module _ (file base idx : Str) where
  -- What is written for the text from one place on, and how much of it is used up.
  abbrev placeholder_at : Option ℕ → Str → Str × ℕ
  placeholder_at none s = (s, length s)
  placeholder_at (some end_at) s = (
    or_verbatim (expand_placeholder (slice s 1 end_at) file base idx) (take (end_at + 1) s),
    end_at + 1,
  )

  unfoldable chunk : ℕ → Str → Str × ℕ
  unfolding has_prefix index_byte expand_placeholder
  chunk c s =
      if has_prefix (c ∷ s) (codes "{{}}")
      then (codes "{}", 4)
      else if c == b'{'
      then placeholder_at (index_byte (c ∷ s) b'}') (c ∷ s)
      else (c ∷ [], 1)

  -- The loop; `fuel` bounds its turns, and the length of the text is enough.
  unfoldable subst_from : ℕ → Str → Str
  unfolding chunk
  subst_from fuel [] = []
  subst_from zero (c ∷ s) = []
  subst_from (suc fuel) (c ∷ s) = (chunk c s).0 ++ subst_from fuel (drop (chunk c s).1 (c ∷ s))

-- substInput, with filepath.Base and strconv.Itoa
unfoldable subst_input : (Str → Str) → (ℕ → Str) → Str → Str → ℕ → Str
unfolding subst_from
subst_input base_of itoa s file idx = subst_from file (base_of file) (itoa idx) (length s) s

unfoldable subst_all : (Str → Str) → (ℕ → Str) → List Str → Str → ℕ → List Str
unfolding subst_input
subst_all base_of itoa ss file idx = map (λ s. subst_input base_of itoa s file idx) ss
