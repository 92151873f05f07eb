-- ===== src/Eval/Value/Tests.antt =====
-- Numbers and their texts.
use cgpipe.Prelude.{[], ◌∷◌, ◌≡◌, refl, arith}
use cgpipe.Text.{codes}
use cgpipe.Exec.{ok, err}
use cgpipe.Eval.Range.{ℤ, negsuc}
use cgpipe.Eval.Value.{int_val, str_val, map_val, endless, then_do, stringify, parse_scalar}
use cgpipe.Eval.Value.Numbers.{parse_scalar-stringify}
use cgpipe.Eval.Samples.{whole_floats}

parse_scalar-stringify_example :
    then_do (stringify {F = ℤ} [] (int_val (negsuc 40))) (λ s. ok (parse_scalar {F = ℤ} s))
    ≡ ok (int_val (negsuc 40))
parse_scalar-stringify_example = parse_scalar-stringify [] (negsuc 40) (omega arith) (omega arith)

written : stringify {F = ℤ} [] (int_val (negsuc 40)) ≡ ok (codes "-41")
unfolding stringify
written = refl

word : parse_scalar {F = ℤ} (codes "4x") ≡ str_val (codes "4x")
unfolding parse_scalar
word = refl

-- A map that holds itself.
cycle : stringify {F = ℤ} (((codes "a", map_val 0) ∷ []) ∷ []) (map_val 0) ≡ err endless
unfolding stringify
cycle = refl
