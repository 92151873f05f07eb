-- ===== src/Eval/Methods/Tests.antt =====
-- The methods at small values.
use cgpipe.Prelude.{[], ◌∷◌, ◌≡◌, refl}
use cgpipe.Text.{codes}
use cgpipe.Exec.{ok}
use cgpipe.Eval.Range.{ℤ}
use cgpipe.Eval.Value.{str_val, list_val, no_values, value_then, then_do}
use cgpipe.Eval.Methods.{string_method}
use cgpipe.Eval.Methods.Split.{join-split}
use cgpipe.Eval.Samples.{whole_floats, small_library}

join-split_example :
    then_do
      (string_method {F = ℤ} [] small_library tt
        (codes "a, b,, c")
        (codes "split")
        (str_val (codes ", ") ∷ []))
      (λ parts. string_method [] small_library tt (codes ", ") (codes "join") (parts ∷ []))
    ≡ ok (str_val (codes "a, b,, c"))
join-split_example = join-split [] small_library tt (codes "a, b,, c") (codes ", ") λ e. cc e

split_small :
    string_method {F = ℤ} [] small_library tt
      (codes "a, b,, c")
      (codes "split")
      (str_val (codes ", ") ∷ [])
    ≡ ok (
        list_val (
          value_then
            (str_val (codes "a"))
            (value_then (str_val (codes "b,")) (value_then (str_val (codes "c")) no_values))))
unfolding string_method
split_small = refl
