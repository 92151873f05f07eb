-- ===== src/Command/Subst/Plain.antt =====
-- The loop of substInput: the bound on its turns, and text without placeholders.
use cgpipe.Prelude.{
  ℕ, zero, suc, ◌-◌, ◌≤◌, [], ◌∷◌, ◌++◌, list_eq, nat_eq, length, drop, ◌≡◌, ◌≢◌, refl, ap, ◌∙◌,
  arith, Option-cases, inl, inr, eq_ne,
}
use cgpipe.Text.{Str, has_prefix, index_byte}
use cgpipe.Text.Laws.{Lacks}
use cgpipe.Command.Subst.{chunk, subst_from, subst_input}

length-drop : (n : ℕ) (s : Str) → length (drop n s) ≡ length s - n
length-drop zero s = omega arith
length-drop (suc n) [] = omega arith
length-drop (suc n) (c ∷ s) = length-drop n s ∙ omega arith

module _ (file base idx : Str) where
  -- Each turn uses up a byte.
  chunk_moves : (c : ℕ) (s : Str) → 1 ≤ (chunk file base idx c s).1
  unfolding chunk
  chunk_moves c s = elim (Option-cases (index_byte (c ∷ s) b'}')) [
    | inl e ↦ rw e (ground arith)
    | inr (i, e) ↦ rw e (ground arith)
  ]

  -- More turns than there are bytes change nothing: the bound is never met.
  pub subst_from_enough :
      (fuel more : ℕ) (s : Str)
      → length s ≤ fuel
      → length s ≤ more
      → subst_from file base idx fuel s ≡ subst_from file base idx more s
  unfolding subst_from
  subst_from_enough fuel more [] h k = refl
  subst_from_enough zero more (c ∷ s) h k = absurd (omega arith)
  subst_from_enough (suc fuel) zero (c ∷ s) h k = absurd (omega arith)
  subst_from_enough (suc fuel) (suc more) (c ∷ s) h k =
      let n = (chunk file base idx c s).1 in
      ap (λ rest. (chunk file base idx c s).0 ++ rest)
        (subst_from_enough fuel more (drop n (c ∷ s))
          (omega (arith, length-drop n (c ∷ s), chunk_moves c s))
          (omega (arith, length-drop n (c ∷ s), chunk_moves c s)))

-- A run of the loop with as many turns as the text has bytes, or more, is what `substInput` returns.
pub subst_input_enough :
    (base_of : Str → Str) (itoa : ℕ → Str) (s file : Str) (idx fuel : ℕ)
    → length s ≤ fuel
    → subst_from file (base_of file) (itoa idx) fuel s ≡ subst_input base_of itoa s file idx
unfolding subst_input
subst_input_enough base_of itoa s file idx fuel h =
    subst_from_enough file (base_of file) (itoa idx) fuel (length s) s h (omega arith)

chunk_plain :
    (file base idx : Str) (c : ℕ) (s : Str) → c ≢ b'{' → chunk file base idx c s ≡ (c ∷ [], 1)
unfolding chunk has_prefix
chunk_plain file base idx c s h = rw (eq_ne c b'{' h) refl

-- Text without `{` is copied, and what follows it is expanded as it is alone.
pub subst_input-append :
    (base_of : Str → Str) (itoa : ℕ → Str) (s t file : Str) (idx : ℕ)
    → Lacks b'{' s
    → subst_input base_of itoa (s ++ t) file idx ≡ s ++ subst_input base_of itoa t file idx
unfolding subst_input subst_from
subst_input-append base_of itoa [] t file idx h = refl
subst_input-append base_of itoa (c ∷ s) t file idx h =
    rw (chunk_plain file (base_of file) (itoa idx) c (s ++ t) h.0)
      (ap (λ r. c ∷ r) (subst_input-append base_of itoa s t file idx h.1))
