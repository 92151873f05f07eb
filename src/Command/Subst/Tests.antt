-- ===== src/Command/Subst/Tests.antt =====
-- The theorems on placeholders at a text.
use cgpipe.Prelude.{ℕ, [], ◌∷◌, ◌++◌, list_eq, nat_eq, ◌≡◌, arith}
use cgpipe.Text.{Str, codes}
use cgpipe.Command.Subst.{subst_from, subst_input}
use cgpipe.Command.Subst.Plain.{subst_input_enough, subst_input-append}

abbrev one_digit : ℕ → Str
one_digit n = n ∷ []

subst_input_enough_example :
    subst_from (codes "f") (codes "f") (one_digit 1) 9 (codes "a{}b")
    ≡ subst_input (λ p. p) one_digit (codes "a{}b") (codes "f") 1
subst_input_enough_example =
    subst_input_enough (λ p. p) one_digit (codes "a{}b") (codes "f") 1 9 (omega arith)

subst_input-append_example :
    subst_input (λ p. p) one_digit (codes "a" ++ codes "{}") (codes "f") 1
    ≡ codes "a" ++ subst_input (λ p. p) one_digit (codes "{}") (codes "f") 1
subst_input-append_example =
    subst_input-append (λ p. p) one_digit (codes "a") (codes "{}") (codes "f") 1
      ((λ e. absurd (omega (arith, e))), tt)
