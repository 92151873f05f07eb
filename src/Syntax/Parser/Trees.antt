-- ===== src/Syntax/Parser/Trees.antt =====
-- How the functions of the parser read a tree, with parentheses around it and without.
use cgpipe.Prelude.{
  ℕ, zero, suc, ◌+◌, ◌-◌, ◌*◌, ◌<◌, ◌≤◌, Bool, true, false, not, nat_eq, if◌then◌else◌, ltb, ◌==◌,
  ◌≡◌, refl, ap, ◌∙◌, arith,
}
use cgpipe.Exec.{ok, continue, ◌>>=◌}
use cgpipe.Syntax.Token
use cgpipe.Syntax.Token.{kind_eq}
use cgpipe.Syntax.Ast.{Expr}
use cgpipe.Syntax.Cursor.{Toks, ahead, cur, Parser}
use cgpipe.Syntax.Parser.{parse_unary, parse_binary, parse_suffixes, parse_postfix, parse_expr}
use cgpipe.Syntax.Parser.Print.{
  Tree, truth, infix_at, negation, opposite, item, size, expr_of, level, cap, is_receiver, mark,
  in_parens, bare, is_suffix, Ends,
}
use cgpipe.Syntax.Parser.Steps.{
  op-Bounded, size_positive, binary_stop, unary_other, postfix_paren, suffixes_stop,
}

pub in_parens-head :
    (k : Token.Kind) (b : Bool) (tokens : Toks → Toks) (s : Toks)
    → (Token.l_paren == k) ≡ false
    → (b ≡ false → ((cur (tokens s)).kind == k) ≡ false)
    → ((cur (in_parens b tokens s)).kind == k) ≡ false
in_parens-head k true tokens s paren h = paren
in_parens-head k false tokens s paren h = h refl

pub not-false : (b : Bool) → not b ≡ false → b ≡ true
not-false true e = refl
not-false false e = cc e

pub bare-no_colon : (t : Tree) (s : Toks) → ((cur (bare t s)).kind == Token.colon) ≡ false
bare-no_colon (infix_at o p l r) s =
    in_parens-head Token.colon _ (bare l) _ refl λ _. bare-no_colon l _
bare-no_colon (item p x i) s = in_parens-head Token.colon _ (bare x) _ refl λ _. bare-no_colon x _
bare-no_colon (truth p true) s = refl
bare-no_colon (truth p false) s = refl
bare-no_colon _ s = refl

-- A receiver does not start with a prefix operator.
abbrev pub Unprefixed : Toks → Type 0
Unprefixed s = (((cur s).kind == Token.bang) ≡ false) × (((cur s).kind == Token.minus) ≡ false)

pub receiver-Unprefixed : (t : Tree) (s : Toks) → is_receiver t ≡ true → Unprefixed (bare t s)
receiver-Unprefixed (infix_at o p l r) s h = cc h
receiver-Unprefixed (negation p x) s h = cc h
receiver-Unprefixed (opposite p x) s h = cc h
receiver-Unprefixed (item p x i) s h = (
  in_parens-head Token.bang _ (bare x) _ refl λ e. (receiver-Unprefixed x _ (not-false _ e)).0,
  in_parens-head Token.minus _ (bare x) _ refl λ e. (receiver-Unprefixed x _ (not-false _ e)).1,
)
receiver-Unprefixed (truth p true) s h = (refl, refl)
receiver-Unprefixed (truth p false) s h = (refl, refl)
receiver-Unprefixed _ s h = (refl, refl)

pub if-least : (b : Bool) (n c d : ℕ) → n ≤ c → (b ≡ false → n ≤ d) → n ≤ (if b then c else d)
if-least true n c d hc hd = hc
if-least false n c d hc hd = hd refl

pub cap-least : (t : Tree) (min_bp : ℕ) → min_bp ≤ level t → min_bp ≤ 7 → suc (min_bp - 1) ≤ cap t
cap-least (infix_at o p l r) m le le7 = omega (arith, op-Bounded o)
cap-least (negation p x) m le le7 =
    if-least (ltb (level x) 8) _ _ _ (omega (arith, le7))
      λ e. cap-least x m (ground (arith, e, le7)) le7
cap-least (opposite p x) m le le7 = omega arith
cap-least _ m le le7 = omega arith

abbrev pub operand : ℕ → ℕ → ℕ → ℕ → ℕ → Parser Expr
operand f u k b min_bp =
    parse_unary (parse_expr f) u (parse_postfix (parse_expr f) k)
    >>= parse_binary (parse_expr f) b min_bp

abbrev pub Suffixed : Tree → Type 0
Suffixed t =
    (f k : ℕ) (s : Toks)
    → 2 * size t ≤ f + 2
    → size t ≤ k
    → (j : ℕ) × (k < j + size t)
      × (parse_postfix (parse_expr f) k (bare t s) ≡ parse_suffixes (parse_expr f) j (expr_of t) s)

abbrev pub Unary : Tree → Type 0
Unary t =
    (f u k : ℕ) (s : Toks)
    → 2 * size t ≤ f + 2
    → size t ≤ u
    → size t ≤ k
    → Ends (cap t) s
    → parse_unary (parse_expr f) u (parse_postfix (parse_expr f) k) (bare t s) ≡ (ok (expr_of t), s)

abbrev pub Chained : Tree → Type 0
Chained t =
    (f u k b min_bp : ℕ) (s : Toks)
    → 2 * size t ≤ f + 2
    → size t ≤ u
    → size t ≤ k
    → size t ≤ b
    → min_bp ≤ level t
    → Ends (cap t) s
    → (j : ℕ) × (b < j + size t)
      × (operand f u k b min_bp (bare t s) ≡ parse_binary (parse_expr f) j min_bp (expr_of t) s)

-- How the functions of the parser read a tree without parentheses around it.
pub record Parsed (t : Tree) : Type 0 where
  pub suffixes : is_receiver t ≡ true → Suffixed t
  pub prefixed : level t ≡ 8 → Unary t
  pub chain : Chained t

pub Unary-Chained : (t : Tree) → Unary t → Chained t
unfolding ◌>>=◌
Unary-Chained t h f u k b m s lf lu lk lb le ends = (
  b,
  omega (arith, size_positive t),
  ap (continue (parse_binary (parse_expr f) b m)) (h f u k s lf lu lk ends),
)

pub full_bare :
    (t : Tree)
    → Parsed t
    → (f min_bp : ℕ) (s : Toks) → 2 * size t ≤ f + 1
    → min_bp ≤ level t
    → min_bp ≤ 7
    → Ends min_bp s
    → parse_expr f min_bp (bare t s) ≡ (ok (expr_of t), s)
unfolding parse_expr ◌>>=◌
full_bare t h zero m s lf le le7 ends = absurd (omega (arith, size_positive t, lf))
full_bare t h (suc f) m s lf le le7 ends = finish (
    h.chain f (suc f) (suc f) (suc f) m s (omega (arith, lf)) (omega (arith, lf, size_positive t))
      (omega (arith, lf, size_positive t)) (omega (arith, lf, size_positive t)) le
      (omega (arith, cap-least t m le le7, ends.0), ends.1))
  where
    finish :
        ((j : ℕ) × (suc f < j + size t)
          × (operand f (suc f) (suc f) (suc f) m (bare t s)
              ≡ parse_binary (parse_expr f) j m (expr_of t) s))
        → operand f (suc f) (suc f) (suc f) m (bare t s) ≡ (ok (expr_of t), s)
    finish (zero, less, e) = absurd (omega (arith, less, lf, size_positive t))
    finish (suc j, less, e) = e ∙ binary_stop (parse_expr f) j m (expr_of t) s ends

pub postfix_round :
    (t : Tree)
    → Parsed t
    → (f k : ℕ) (s : Toks) → 2 * size t ≤ f + 1
    → parse_postfix (parse_expr f) k (in_parens true (bare t) s)
      ≡ parse_suffixes (parse_expr f) k (expr_of t) s
postfix_round t h f k s lf =
    postfix_paren (parse_expr f) k Token.no_pos Token.no_pos (expr_of t)
      (bare t (ahead (mark Token.r_paren Token.no_pos) s)) s
      (full_bare t h f 0 _ lf (omega arith) (omega arith) (omega arith, refl))

pub unary_round :
    (t : Tree)
    → Parsed t
    → (f u k : ℕ) (s : Toks) → 2 * size t ≤ f + 1
    → 1 ≤ u
    → 1 ≤ k
    → is_suffix (cur s).kind ≡ false
    → parse_unary (parse_expr f) u (parse_postfix (parse_expr f) k) (in_parens true (bare t) s)
      ≡ (ok (expr_of t), s)
unary_round t h f zero k s lf lu lk stop = absurd (omega (arith, lu))
unary_round t h f (suc u) zero s lf lu lk stop = absurd (omega (arith, lk))
unary_round t h f (suc u) (suc k) s lf lu lk stop =
    unary_other (parse_expr f) u _ _ refl refl
    ∙ (postfix_round t h f (suc k) s lf ∙ suffixes_stop (parse_expr f) k (expr_of t) s stop)

pub full_wrap :
    (t : Tree)
    → Parsed t
    → (b : Bool) (f min_bp : ℕ) (s : Toks) → 2 * size t ≤ f
    → (b ≡ false → min_bp ≤ level t)
    → min_bp ≤ 7
    → Ends min_bp s
    → parse_expr f min_bp (in_parens b (bare t) s) ≡ (ok (expr_of t), s)
unfolding parse_expr ◌>>=◌
full_wrap t h true zero m s lf le le7 ends = absurd (omega (arith, size_positive t, lf))
full_wrap t h true (suc f) m s lf le le7 ends =
    ap (continue (parse_binary (parse_expr f) (suc f) m))
      (unary_round t h f (suc f) (suc f) s (omega (arith, lf)) (omega arith) (omega arith) ends.1)
    ∙ binary_stop (parse_expr f) f m (expr_of t) s ends
full_wrap t h false f m s lf le le7 ends =
    full_bare t h f m s (omega (arith, lf)) (le refl) le7 ends
