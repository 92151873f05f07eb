-- ===== src/Eval/Operators/Tests.antt =====
-- The operators at small values.
use cgpipe.Prelude.{some, arith, [], ◌≡◌, refl}
use cgpipe.Text.{codes}
use cgpipe.Exec.{ok, err}
use cgpipe.Syntax.Token
use cgpipe.Eval.Range.{ℤ, pos, negsuc}
use cgpipe.Eval.Value.{Value, int_val, str_val, division_by_zero}
use cgpipe.Eval.Operators.{apply_binary, int_pow}
use cgpipe.Eval.Operators.Powers.{int_pow_exact}
use cgpipe.Eval.Samples.{whole_floats}

abbrev minus_seven : Value ℤ
minus_seven = int_val (negsuc 6)

quotient : apply_binary [] Token.slash minus_seven (int_val (pos 2)) ≡ ok (int_val (negsuc 2))
unfolding apply_binary
quotient = refl

joined :
    apply_binary [] Token.plus (str_val (codes "n = ")) minus_seven ≡ ok (str_val (codes "n = -7"))
unfolding apply_binary
joined = refl

by_zero : apply_binary [] Token.percent minus_seven (int_val (pos 0)) ≡ err division_by_zero
unfolding apply_binary
by_zero = refl

-- (-8) ^ 21 is the least int64.
int_pow_exact_example : int_pow (negsuc 7) (pos 21) ≡ some (negsuc 9223372036854775807)
int_pow_exact_example = int_pow_exact (negsuc 7) 21 (omega arith, omega arith)
