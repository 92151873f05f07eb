-- ===== src/Eval/Value/Numbers.antt =====
-- The text of a whole number is read as that number.
use native.Mathlib.Nat.{div-add-mod}
use cgpipe.Prelude.{
  ℕ, zero, suc, ◌+◌, ◌*◌, ◌/◌, ◌%◌, ◌<◌, ◌≤◌, [], ◌∷◌, Bool, true, false, Option, some, nat_eq,
  list_eq, if◌then◌else◌, ltb, ◌==◌, ◌≡◌, refl, ap, ◌∙◌, arith, Bool-cases, inl, inr, eq_ne,
}
use cgpipe.Text.{Str, codes}
use cgpipe.Exec.{ok}
use cgpipe.Syntax.Lexer.{is_digit}
use cgpipe.Syntax.Parser.{digits_from}
use cgpipe.Eval.Range.{ℤ, pos, negsuc, pos_part, neg_part, two_63}
use cgpipe.Eval.Value.{
  Floats, int_val, Heap, then_do, digits_onto, format_int, signed, digits_of, parse_int_64,
  stringify, scalar_of, parse_scalar,
}

is_digit_lem : (d : ℕ) → d < 10 → is_digit (48 + d) ≡ true
is_digit_lem d h = ground arith

digits_from_one :
    (m d : ℕ) (s : Str) → d < 10 → digits_from m ((48 + d) ∷ s) ≡ digits_from (10 * m + d) s
digits_from_one m d s h = rw (is_digit_lem d h) (ap (λ k. digits_from k s) (omega arith))

-- The digits that stand before a text are read before it.
digits_from-digits_onto :
    (fuel n : ℕ) (s : Str) → n < fuel → digits_from 0 (digits_onto fuel n s) ≡ digits_from n s
unfolding digits_onto
digits_from-digits_onto zero n s h = absurd (omega (arith, h))
digits_from-digits_onto (suc fuel) n s h = elim (Bool-cases (ltb n 10)) [
  | inl small ↦
      rw small (digits_from_one 0 n s (ground arith) ∙ ap (λ k. digits_from k s) (omega arith))
  | inr large ↦ rw large (
      digits_from-digits_onto fuel (n / 10) ((48 + n % 10) ∷ s) (ground arith)
      ∙ digits_from_one (n / 10) (n % 10) s (omega arith)
      ∙ ap (λ k. digits_from k s) (div-add-mod n 10))
]

abbrev StartsWithDigit : Str → Type 0
StartsWithDigit [] = ⊥
StartsWithDigit (c ∷ s) = (48 ≤ c) × (c ≤ 57)

starts_if :
    (b : Bool) (x y : Str)
    → (b ≡ true → StartsWithDigit x)
    → StartsWithDigit y
    → StartsWithDigit (if b then x else y)
starts_if true x y h k = h refl
starts_if false x y h k = k

digits_onto-StartsWithDigit :
    (fuel n : ℕ) (s : Str) → StartsWithDigit s → StartsWithDigit (digits_onto fuel n s)
unfolding digits_onto
digits_onto-StartsWithDigit zero n s h = h
digits_onto-StartsWithDigit (suc fuel) n s h =
    starts_if (ltb n 10) _ _ (λ e. ground arith)
      (digits_onto-StartsWithDigit fuel (n / 10) ((48 + n % 10) ∷ s) (omega arith, omega arith))

digits_onto_starts : (fuel n : ℕ) (s : Str) → StartsWithDigit (digits_onto (suc fuel) n s)
unfolding digits_onto
digits_onto_starts fuel n s =
    starts_if (ltb n 10) _ _ (λ e. ground arith)
      (digits_onto-StartsWithDigit fuel (n / 10) ((48 + n % 10) ∷ s) (omega arith, omega arith))

-- A text that starts with a digit is read as its digits.
digits_of_start :
    (s : Str) (x : Option ℕ) → StartsWithDigit s → digits_from 0 s ≡ x → digits_of s ≡ x
digits_of_start [] x h e = absurd h
digits_of_start (c ∷ s) x h e = e

parse_start :
    (s : Str) (n : ℕ)
    → StartsWithDigit s
    → digits_from 0 s ≡ some n
    → parse_int_64 s ≡ signed false (some n)
unfolding parse_int_64
parse_start [] n h e = absurd h
parse_start (c ∷ s) n h e =
    rw (eq_ne c b'-' λ q. omega (arith, q, h.0), eq_ne c b'+' λ q. omega (arith, q, h.0))
      (ap (signed false) e)

parse_int_64-format_int :
    (n : ℤ) → pos_part n < two_63 → neg_part n ≤ two_63 → parse_int_64 (format_int n) ≡ some n
unfolding format_int parse_int_64
parse_int_64-format_int (pos n) up down =
    parse_start _ n (digits_onto_starts n n []) (digits_from-digits_onto (suc n) n [] (omega arith))
    ∙ ground arith
parse_int_64-format_int (negsuc n) up down =
    ap (signed true) (
      digits_of_start _ (some (suc n)) (digits_onto_starts (suc n) (suc n) [])
        (digits_from-digits_onto (suc (suc n)) (suc n) [] (omega arith)))
    ∙ ground (arith, down)

digit_first : (s : Str) (c : ℕ) (t : Str) → StartsWithDigit s → 57 < c → (s == (c ∷ t)) ≡ false
digit_first [] c t h less = absurd h
digit_first (d ∷ s) c t h less = rw (eq_ne d c λ q. omega (arith, q, h.1, less)) refl

module _ {F : Type 0} ⦃floats : Floats F⦄ where
  parse_scalar-number :
      (s : Str) (n : ℤ)
      → (s == codes "true") ≡ false
      → (s == codes "false") ≡ false
      → parse_int_64 s ≡ some n
      → parse_scalar {F = F} s ≡ int_val n
  unfolding parse_scalar
  parse_scalar-number s n no_true no_false e =
      rw (no_true, no_false) (ap (λ x. scalar_of x (floats.parse s) s) e)

  parse_scalar-format_int :
      (n : ℤ)
      → pos_part n < two_63
      → neg_part n ≤ two_63
      → parse_scalar {F = F} (format_int n) ≡ int_val n
  unfolding format_int
  parse_scalar-format_int (pos n) up down =
      parse_scalar-number (format_int (pos n)) (pos n)
        (digit_first (format_int (pos n)) b't' (codes "rue") (digits_onto_starts n n [])
          (omega arith))
        (digit_first (format_int (pos n)) b'f' (codes "alse") (digits_onto_starts n n [])
          (omega arith))
        (parse_int_64-format_int (pos n) up down)
  parse_scalar-format_int (negsuc n) up down =
      parse_scalar-number (format_int (negsuc n)) (negsuc n) refl refl
        (parse_int_64-format_int (negsuc n) up down)

  -- The text of an int64 is read back as that int64, for every number from -2^63 to 2^63 - 1.
  pub parse_scalar-stringify :
      (h : Heap F) (n : ℤ)
      → pos_part n < two_63
      → neg_part n ≤ two_63
      → then_do (stringify h (int_val n)) (λ s. ok (parse_scalar {F = F} s)) ≡ ok (int_val n)
  unfolding stringify
  parse_scalar-stringify h n up down = ap ok (parse_scalar-format_int n up down)
