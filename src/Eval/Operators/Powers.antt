-- ===== src/Eval/Operators/Powers.antt =====
-- Powers of int64s that fit are exact.
use cgpipe.Prelude.{
  ℕ, zero, suc, ◌*◌, ◌^◌, ◌<◌, ◌≤◌, Bool, true, false, not, ◌&&◌, some, nat_eq, if◌then◌else◌, ◌≡◌,
  refl, sym, ap, ◌∙◌, arith, subst,
}
use native.Mathlib.Nat.{zero-mul, mul-zero, pow-zero, pow-suc, mul-suc}
use cgpipe.Eval.Range.{ℤ, pos, negsuc, pos_part, neg_part, two_63, wrap_64, is_negative}
use cgpipe.Eval.Operators.{absolute, with_sign, opposite_signs, mul_64, power_loop, int_pow}

-- Whether a number of factors is odd.
abbrev pub is_odd : ℕ → Bool
is_odd zero = false
is_odd (suc n) = not (is_odd n)

-- From -2 ^ 63 to 2 ^ 63 - 1.
abbrev pub IsInt64 : ℤ → Type 0
IsInt64 a = (pos_part a < two_63) × (neg_part a ≤ two_63)

wrap_64-with_sign :
    (b : Bool) (m : ℕ) → IsInt64 (with_sign b m) → wrap_64 (with_sign b m) ≡ with_sign b m
wrap_64-with_sign b zero h = refl
wrap_64-with_sign false (suc m) h = ground (arith, h)
wrap_64-with_sign true (suc m) h = ground (arith, h)

size_bound : (b : Bool) (m : ℕ) → IsInt64 (with_sign b m) → m ≤ two_63
size_bound b zero h = omega arith
size_bound false (suc m) h = omega (arith, h.0)
size_bound true (suc m) h = omega (arith, h.1)

below-IsInt64 : (b : Bool) (m : ℕ) → m < two_63 → IsInt64 (with_sign b m)
below-IsInt64 b zero h = (omega arith, omega arith)
below-IsInt64 false (suc m) h = (omega (arith, h), omega arith)
below-IsInt64 true (suc m) h = (omega arith, omega (arith, h))

absolute-with_sign : (b : Bool) (m : ℕ) → absolute (with_sign b m) ≡ m
absolute-with_sign b zero = refl
absolute-with_sign false (suc m) = omega arith
absolute-with_sign true (suc m) = omega arith

sign_of_product :
    (s : Bool) (m : ℕ) (b : ℤ)
    → opposite_signs (with_sign s (suc m)) b ≡ (if is_negative b then not s else s)
sign_of_product false m (pos n) = refl
sign_of_product true m (pos n) = refl
sign_of_product false m (negsuc n) = refl
sign_of_product true m (negsuc n) = refl

with_sign_nought : (b : Bool) (k m : ℕ) → m ≡ 0 → with_sign b (m * k) ≡ pos 0
with_sign_nought b k m e = ap (with_sign b) {x = m * k} {y = 0} (ap (λ j. j * k) e ∙ zero-mul k)

-- A product of a number with a sign and an int64.
signed_product :
    (s : Bool) (m : ℕ) (b : ℤ)
    → with_sign (opposite_signs (with_sign s m) b) (absolute (with_sign s m) * absolute b)
      ≡ with_sign (if is_negative b then not s else s) (m * absolute b)
signed_product s zero b =
    with_sign_nought _ (absolute b) 0 refl ∙ sym (with_sign_nought _ (absolute b) 0 refl)
signed_product s (suc m) b =
    ap (λ t. with_sign t (absolute (with_sign s (suc m)) * absolute b)) (sign_of_product s m b)
    ∙ ap (λ k. with_sign (if is_negative b then not s else s) (k * absolute b))
        (absolute-with_sign s (suc m))

sign_step :
    (n : ℕ) (b : ℤ)
    → (if is_negative b then not (is_negative b && is_odd n) else (is_negative b && is_odd n))
      ≡ (is_negative b && is_odd (suc n))
sign_step n (pos m) = refl
sign_step n (negsuc m) = refl

nought_power : (n : ℕ) → 0 ^ n < two_63
nought_power zero = omega (arith, pow-zero 0)
nought_power (suc n) = omega (arith, pow-suc 0 n ∙ mul-zero (0 ^ n))

one_power : (n : ℕ) → 1 ^ n ≡ 1
one_power zero = pow-zero 1
one_power (suc n) = omega (arith, pow-suc 1 n, mul-suc (1 ^ n) 0, mul-zero (1 ^ n), one_power n)

-- A factor more at least doubles the power of a base of two or more.
smaller_power : (k n : ℕ) → k ^ suc n ≤ two_63 → k ^ n < two_63
smaller_power zero n h = nought_power n
smaller_power (suc zero) n h = omega (arith, one_power n)
smaller_power (suc (suc k)) n h =
    let x : ℕ = suc (suc k) ^ n in
    omega (arith, h, pow-suc (suc (suc k)) n, mul-suc x (suc k), mul-suc x k)

power_loop_exact :
    (b : ℤ) (n : ℕ)
    → IsInt64 (with_sign (is_negative b && is_odd n) (absolute b ^ n))
    → power_loop n b ≡ with_sign (is_negative b && is_odd n) (absolute b ^ n)
unfolding power_loop mul_64
power_loop_exact (pos m) zero less = ap (with_sign false) (sym (pow-zero (absolute (pos m))))
power_loop_exact (negsuc m) zero less = ap (with_sign false) (sym (pow-zero (absolute (negsuc m))))
power_loop_exact b (suc n) less =
    let x : ℕ = absolute b ^ n in
    let s : Bool = is_negative b && is_odd n in
    let t : Bool = if is_negative b then not s else s in
    let small : x < two_63 =
      smaller_power (absolute b) n
        (size_bound (is_negative b && is_odd (suc n)) (absolute b ^ suc n) less) in
    ap (λ p. mul_64 p b) (power_loop_exact b n (below-IsInt64 s x small))
    ∙ ap wrap_64 (signed_product s x b)
    ∙ ap (λ k. wrap_64 (with_sign t k)) (sym (pow-suc (absolute b) n))
    ∙ wrap_64-with_sign t (absolute b ^ suc n)
        (subst (λ u. IsInt64 (with_sign u (absolute b ^ suc n))) (sym (sign_step n b)) less)
    ∙ ap (λ u. with_sign u (absolute b ^ suc n)) (sign_step n b)

-- Where the power fits in an int64, -2 ^ 63 included, `intPow` returns it: the power of the base
-- without its sign, negative where the base is and the exponent is odd.
pub int_pow_exact :
    (b : ℤ) (n : ℕ)
    → IsInt64 (with_sign (is_negative b && is_odd n) (absolute b ^ n))
    → int_pow b (pos n) ≡ some (with_sign (is_negative b && is_odd n) (absolute b ^ n))
unfolding int_pow
int_pow_exact b n fits = ap some (power_loop_exact b n fits)
