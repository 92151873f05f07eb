-- ===== src/Eval/Operators.antt =====
-- internal/eval/eval.go: the binary operators on values, and int64 multiplication, division and powers.
mod Tags
mod Powers
mod Tests
use cgpipe.Prelude.{
  ℕ, zero, suc, ◌+◌, ◌-◌, ◌*◌, ◌/◌, ◌%◌, List, [], ◌∷◌, ◌++◌, Bool, true, false, not, ◌&&◌, ◌||◌,
  Option, none, some, nat_eq, list_eq, if◌then◌else◌, leb, ltb, ◌==◌, length,
}
use cgpipe.Text.{Str}
use cgpipe.Exec.{Result, ok, err}
use cgpipe.Syntax.Token
use cgpipe.Eval.Range.{
  ℤ, pos, negsuc, int_eq, pos_part, neg_part, two_63, wrap_64, add_64, sub_64, le_64, is_negative,
}
use cgpipe.Eval.Value.{
  Floats, Value, int_val, float_val, str_val, bool_val, list_val, range_val, unset_val, file_val,
  map_val, Values, no_values, value_then, Heap, append_values, Fault, endless, unset_use,
  division_by_zero, bad_repeat, cannot_apply, cannot_negate, bad_operator, then_do, type_name,
  stringify, truthy,
}

abbrev pub absolute : ℤ → ℕ
absolute a = pos_part a + neg_part a

abbrev pub with_sign : Bool → ℕ → ℤ
with_sign minus zero = pos 0
with_sign false (suc n) = pos (suc n)
with_sign true (suc n) = negsuc n

abbrev pub opposite_signs : ℤ → ℤ → Bool
opposite_signs (pos m) (pos n) = false
opposite_signs (negsuc m) (negsuc n) = false
opposite_signs (pos m) (negsuc n) = true
opposite_signs (negsuc m) (pos n) = true

unfoldable pub mul_64 : ℤ → ℤ → ℤ
mul_64 a b = wrap_64 (with_sign (opposite_signs a b) (absolute a * absolute b))

-- The quotient is rounded towards 0, and the remainder has the sign of the dividend.
unfoldable pub div_64 : ℤ → ℤ → ℤ
div_64 a b = wrap_64 (with_sign (opposite_signs a b) (absolute a / absolute b))

unfoldable pub mod_64 : ℤ → ℤ → ℤ
mod_64 a b = with_sign (is_negative a) (absolute a % absolute b)

-- intPow, whose loop runs as often as the exponent is large
unfoldable pub power_loop : ℕ → ℤ → ℤ
unfolding mul_64
power_loop zero base = pos 1
power_loop (suc n) base = mul_64 (power_loop n base) base

unfoldable pub int_pow : ℤ → ℤ → Option ℤ
unfolding power_loop
int_pow base (negsuc n) = none
int_pow base (pos n) = some (power_loop n base)

unfoldable pub repeat_bytes : ℕ → Str → Str
repeat_bytes zero s = []
repeat_bytes (suc n) s = s ++ repeat_bytes n s

-- strings.Repeat, which panics for a negative count and where the length overflows
unfoldable pub repeat_text : Str → ℤ → Result Fault Str
unfolding repeat_bytes
repeat_text s (negsuc n) = err bad_repeat
repeat_text s (pos n) = if ltb (length s * n) two_63 then ok (repeat_bytes n s) else err bad_repeat

abbrev pub zero_guard {ℓ} : {A : Type ℓ} → ℤ → A → Result Fault A
zero_guard b a = if b == pos 0 then err division_by_zero else ok a

module _ {F : Type 0} where
  unfoldable pub repeat_values : ℕ → Values F → Values F
  unfolding append_values
  repeat_values zero vs = no_values
  repeat_values (suc n) vs = append_values vs (repeat_values n vs)

  abbrev pub repeat_list : Values F → ℤ → Values F
  repeat_list vs (pos n) = repeat_values n vs
  repeat_list vs (negsuc n) = no_values

  abbrev pub mismatch : Token.Kind → Value F → Value F → Result Fault (Value F)
  mismatch op l r = err (cannot_apply op (type_name l) (type_name r))

module _ {F : Type 0} ⦃floats : Floats F⦄ where
  abbrev pub to_int : Value F → ℤ
  to_int (int_val n) = n
  to_int (float_val x) = floats.truncate x
  to_int (bool_val true) = pos 1
  to_int _ = pos 0

  abbrev pub to_float : Value F → F
  to_float (int_val n) = floats.of_int n
  to_float (float_val x) = x
  to_float _ = floats.of_int (pos 0)

  abbrev pub texts_equal : Heap F → Value F → Value F → Result Fault Bool
  texts_equal h l r = then_do (stringify h l) λ s. then_do (stringify h r) λ t. ok (s == t)

  unfoldable pub value_equal : Heap F → Value F → Value F → Result Fault Bool
  unfolding stringify
  value_equal h (int_val m) (int_val n) = ok (m == n)
  value_equal h (int_val m) (float_val y) = ok (floats.equal (floats.of_int m) y)
  value_equal h (float_val x) (int_val n) = ok (floats.equal x (floats.of_int n))
  value_equal h (float_val x) (float_val y) = ok (floats.equal x y)
  value_equal h l r = texts_equal h l r

  -- The operator on float64s, `none` where that is not for floats.
  unfoldable pub on_floats : Token.Kind → F → F → Option (Value F)
  on_floats Token.plus a b = some (float_val (floats.plus a b))
  on_floats Token.minus a b = some (float_val (floats.minus a b))
  on_floats Token.star a b = some (float_val (floats.times a b))
  on_floats Token.slash a b = some (float_val (floats.divided a b))
  on_floats Token.pow a b = some (float_val (floats.power a b))
  on_floats Token.lt a b = some (bool_val (floats.less a b))
  on_floats Token.le a b = some (bool_val (floats.at_most a b))
  on_floats Token.gt a b = some (bool_val (floats.less b a))
  on_floats Token.ge a b = some (bool_val (floats.at_most b a))
  on_floats _ a b = none

  unfoldable pub on_ints : Token.Kind → Value F → Value F → ℤ → ℤ → Result Fault (Value F)
  unfolding mul_64 div_64 mod_64 int_pow
  on_ints Token.plus l r a b = ok (int_val (add_64 a b))
  on_ints Token.minus l r a b = ok (int_val (sub_64 a b))
  on_ints Token.star l r a b = ok (int_val (mul_64 a b))
  on_ints Token.slash l r a b = zero_guard b (int_val (div_64 a b))
  on_ints Token.percent l r a b = zero_guard b (int_val (mod_64 a b))
  on_ints Token.pow l r a b = ok (
      int_val (elim (int_pow a b) [
        | some n ↦ n
        | none ↦ floats.truncate (floats.power (floats.of_int a) (floats.of_int b))
      ]))
  on_ints Token.lt l r a b = ok (bool_val (not (le_64 b a)))
  on_ints Token.le l r a b = ok (bool_val (le_64 a b))
  on_ints Token.gt l r a b = ok (bool_val (not (le_64 a b)))
  on_ints Token.ge l r a b = ok (bool_val (le_64 b a))
  on_ints op l r a b = mismatch op l r

  abbrev pub or_ints : Result Fault (Value F) → Option (Value F) → Result Fault (Value F)
  or_ints ints none = ints
  or_ints ints (some v) = ok v

  abbrev pub with_float : Token.Kind → Value F → Value F → Result Fault (Value F)
  with_float op l r =
      or_ints (on_ints op l r (to_int l) (to_int r)) (on_floats op (to_float l) (to_float r))

  unfoldable pub on_numbers : Token.Kind → Value F → Value F → Result Fault (Value F)
  unfolding on_floats on_ints
  on_numbers op (int_val m) (int_val n) = on_ints op (int_val m) (int_val n) m n
  on_numbers op (int_val m) (float_val y) = with_float op (int_val m) (float_val y)
  on_numbers op (float_val x) (int_val n) = with_float op (float_val x) (int_val n)
  on_numbers op (float_val x) (float_val y) = with_float op (float_val x) (float_val y)
  on_numbers op l r = mismatch op l r

  -- The operators on values that are set, other than `==` and `!=`.
  unfoldable pub operate : Heap F → Token.Kind → Value F → Value F → Result Fault (Value F)
  unfolding stringify append_values repeat_values repeat_text on_numbers
  operate h Token.plus (str_val s) r = then_do (stringify h r) λ t. ok (str_val (s ++ t))
  operate h Token.star (str_val s) r = then_do (repeat_text s (to_int r)) λ t. ok (str_val t)
  operate h Token.plus (list_val vs) (list_val ws) = ok (list_val (append_values vs ws))
  operate h Token.plus (list_val vs) r = ok (list_val (append_values vs (value_then r no_values)))
  operate h Token.star (list_val vs) r = ok (list_val (repeat_list vs (to_int r)))
  operate h op l r = on_numbers op l r

  abbrev pub unless_unset : Value F → Value F → Result Fault (Value F) → Result Fault (Value F)
  unless_unset unset_val r result = err unset_use
  unless_unset l unset_val result = err unset_use
  unless_unset l r result = result

  unfoldable pub apply_binary : Heap F → Token.Kind → Value F → Value F → Result Fault (Value F)
  unfolding value_equal operate
  apply_binary h Token.eq l r = then_do (value_equal h l r) λ b. ok (bool_val b)
  apply_binary h Token.neq l r = then_do (value_equal h l r) λ b. ok (bool_val (not b))
  apply_binary h op l r = unless_unset l r (operate h op l r)

  -- evalUnary, at the value of its operand
  unfoldable pub apply_unary : Heap F → Token.Kind → Value F → Result Fault (Value F)
  unfolding truthy
  apply_unary h Token.bang v = ok (bool_val (not (truthy h v)))
  apply_unary h Token.minus (int_val n) = ok (int_val (sub_64 (pos 0) n))
  apply_unary h Token.minus (float_val x) = ok (float_val (floats.opposite x))
  apply_unary h Token.minus v = err (cannot_negate (type_name v))
  apply_unary h op v = err bad_operator
