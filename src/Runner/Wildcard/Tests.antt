-- ===== src/Runner/Wildcard/Tests.antt =====
-- The theorems on `%` rules at `%.o: %.c`.
use mathlib.Core.List.{Memᴰ}
use cgpipe.Prelude.{
  ℕ, zero, suc, [], ◌∷◌, true, some, ◌≡◌, ◌↔◌, refl, ap, subst, arith, length, drop, length-append,
}
use cgpipe.Text.{Str, codes}
use cgpipe.Text.Laws.{Lacks}
use cgpipe.Runner.Target.{Target, no_pos}
use cgpipe.Runner.Wildcard.{match_wildcard, instantiate}
use cgpipe.Runner.Wildcard.RoundTrip.{
  IsFirstMatch, HasOnePercent, match_wildcard_iff, instantiate-match_wildcard,
}

abbrev object_rule : Target
object_rule = record {
  pos = no_pos;
  special = [];
  outputs = codes "%.o" ∷ [];
  temp = [];
  inputs = codes "%.c" ∷ [];
  body = [];
  has_body = true;
  stem = [];
}

abbrev byte_at : ℕ → Str → ℕ
byte_at i [] = 0
byte_at zero (x ∷ s) = x
byte_at (suc i) (x ∷ s) = byte_at i s

one_percent : HasOnePercent (codes "%.o")
one_percent [] back e =
    subst (Lacks b'%') (ap (drop 1) e)
      ((λ h. absurd (omega (arith, h)), (λ h. absurd (omega (arith, h)), tt)))
one_percent (x ∷ []) back e = absurd (omega (arith, ap (byte_at 1) e))
one_percent (x ∷ y ∷ []) back e = absurd (omega (arith, ap (byte_at 2) e))
one_percent (x ∷ y ∷ z ∷ front) back e =
    absurd (omega (arith, ap length e, length-append front (b'%' ∷ back)))

instantiate-match_wildcard_example :
    Memᴰ (codes "m.o") (instantiate object_rule (codes "m")).outputs
unfolding match_wildcard
instantiate-match_wildcard_example =
    instantiate-match_wildcard object_rule (codes "m.o") (codes "m") (one_percent, tt) refl

-- Of the outputs `a%` and `%b` the first decides the stem of `ab`.
abbrev two_patterns : Target
two_patterns = record object_rule { outputs = codes "a%" ∷ codes "%b" ∷ [] }

first_decides : match_wildcard two_patterns (codes "ab") ≡ some (codes "b")
unfolding match_wildcard
first_decides = refl

match_wildcard_iff_example :
    (match_wildcard two_patterns (codes "ab") ≡ some (codes "b"))
    ↔ IsFirstMatch two_patterns.outputs (codes "ab") (codes "b")
match_wildcard_iff_example = match_wildcard_iff two_patterns (codes "ab") (codes "b")
