-- ===== src/Syntax/Parser/Steps.antt =====
-- Single turns of the loops of the parser of expressions.
use cgpipe.Prelude.{
  ℕ, suc, ◌≤◌, Bool, true, false, ◌||◌, nat_eq, if◌then◌else◌, ltb, ◌==◌, ◌≡◌, refl, ap, ◌∙◌, arith,
}
use cgpipe.Exec.{ok, pure, gets, modify, continue, ◌>>=◌}
use cgpipe.Syntax.Token
use cgpipe.Syntax.Token.{kind_eq}
use cgpipe.Syntax.Ast.{Expr, index, unary}
use cgpipe.Syntax.Cursor.{Toks, ahead, cur, Parser, advance, expect}
use cgpipe.Syntax.Parser.{
  bin_power, next_min, joined, parse_unary, parse_binary, primary_at, parse_primary,
  parse_index_or_slice, postfix_at, parse_suffixes, parse_postfix,
}
use cgpipe.Syntax.Parser.Print.{
  Op, op_or, op_and, op_eq, op_neq, op_lt, op_le, op_gt, op_ge, op_range, op_add, op_sub, op_mul,
  op_div, op_rem, op_pow, op_kind, power, right_power, combined, Tree, infix_at, negation, opposite,
  item, size, mark, is_suffix, Ends,
}

pub if_true {ℓ} : {A : Type ℓ} (x y : A) (b : Bool) → b ≡ true → (if b then x else y) ≡ x
if_true x y true e = refl
if_true x y false e = cc e

pub if_false {ℓ} : {A : Type ℓ} (x y : A) (b : Bool) → b ≡ false → (if b then x else y) ≡ y
if_false x y true e = cc e
if_false x y false e = refl

-- What is used of the powers of the operators.
abbrev pub Bounded : Op → Type 0
Bounded o =
    (1 ≤ power o)
    × (power o ≤ 7)
    × (right_power o ≤ 7)
    × (power o ≤ right_power o)
    × (right_power o ≤ suc (power o))

pub op-Bounded : (o : Op) → Bounded o
op-Bounded op_or = ground arith
op-Bounded op_and = ground arith
op-Bounded op_eq = ground arith
op-Bounded op_neq = ground arith
op-Bounded op_lt = ground arith
op-Bounded op_le = ground arith
op-Bounded op_gt = ground arith
op-Bounded op_ge = ground arith
op-Bounded op_range = ground arith
op-Bounded op_add = ground arith
op-Bounded op_sub = ground arith
op-Bounded op_mul = ground arith
op-Bounded op_div = ground arith
op-Bounded op_rem = ground arith
op-Bounded op_pow = ground arith

pub op-no_suffix : (o : Op) → is_suffix (op_kind o) ≡ false
op-no_suffix op_or = refl
op-no_suffix op_and = refl
op-no_suffix op_eq = refl
op-no_suffix op_neq = refl
op-no_suffix op_lt = refl
op-no_suffix op_le = refl
op-no_suffix op_gt = refl
op-no_suffix op_ge = refl
op-no_suffix op_range = refl
op-no_suffix op_add = refl
op-no_suffix op_sub = refl
op-no_suffix op_mul = refl
op-no_suffix op_div = refl
op-no_suffix op_rem = refl
op-no_suffix op_pow = refl

pub size_positive : (t : Tree) → 1 ≤ size t
size_positive (infix_at o p l r) = omega arith
size_positive (negation p x) = omega arith
size_positive (opposite p x) = omega arith
size_positive (item p x i) = omega arith
size_positive _ = omega arith

pub op-power : (o : Op) → bin_power (op_kind o) ≡ power o
op-power op_or = refl
op-power op_and = refl
op-power op_eq = refl
op-power op_neq = refl
op-power op_lt = refl
op-power op_le = refl
op-power op_gt = refl
op-power op_ge = refl
op-power op_range = refl
op-power op_add = refl
op-power op_sub = refl
op-power op_mul = refl
op-power op_div = refl
op-power op_rem = refl
op-power op_pow = refl

op-next_min : (o : Op) → next_min (op_kind o) ≡ right_power o
op-next_min op_or = refl
op-next_min op_and = refl
op-next_min op_eq = refl
op-next_min op_neq = refl
op-next_min op_lt = refl
op-next_min op_le = refl
op-next_min op_gt = refl
op-next_min op_ge = refl
op-next_min op_range = refl
op-next_min op_add = refl
op-next_min op_sub = refl
op-next_min op_mul = refl
op-next_min op_div = refl
op-next_min op_rem = refl
op-next_min op_pow = refl

op-joined : (o : Op) (p : Token.Pos) (l r : Expr) → joined (op_kind o) p l r ≡ combined o p l r
op-joined op_or p l r = refl
op-joined op_and p l r = refl
op-joined op_eq p l r = refl
op-joined op_neq p l r = refl
op-joined op_lt p l r = refl
op-joined op_le p l r = refl
op-joined op_gt p l r = refl
op-joined op_ge p l r = refl
op-joined op_range p l r = refl
op-joined op_add p l r = refl
op-joined op_sub p l r = refl
op-joined op_mul p l r = refl
op-joined op_div p l r = refl
op-joined op_rem p l r = refl
op-joined op_pow p l r = refl

module _ (expr : ℕ → Parser Expr) where
  pub binary_step :
      (k min_bp : ℕ) (o : Op) (p : Token.Pos) (left right : Expr) (s' s : Toks)
      → min_bp ≤ power o
      → expr (right_power o) s' ≡ (ok right, s)
      → parse_binary expr (suc k) min_bp left (ahead (mark (op_kind o) p) s')
        ≡ parse_binary expr k min_bp (combined o p left right) s
  unfolding parse_binary ◌>>=◌ gets modify
  binary_step k min_bp o p left right s' s le e =
      ap (λ (m : Parser Expr). m (ahead (mark (op_kind o) p) s'))
        (if_false _ _ (bin_power (op_kind o) == 0 || ltb (bin_power (op_kind o)) min_bp)
          (ground (arith, op-Bounded o, op-power o)))
      ∙ (ap (continue (λ r. parse_binary expr k min_bp (joined (op_kind o) p left r)))
            (ap (λ n. expr n s') (op-next_min o) ∙ e)
          ∙ ap (λ x. parse_binary expr k min_bp x s) (op-joined o p left right))

  pub binary_stop :
      (k min_bp : ℕ) (left : Expr) (s : Toks)
      → Ends min_bp s
      → parse_binary expr (suc k) min_bp left s ≡ (ok left, s)
  unfolding parse_binary ◌>>=◌ gets pure
  binary_stop k min_bp left s h =
      ap (λ (m : Parser Expr). m s)
        (if_true _ _ (bin_power (cur s).kind == 0 || ltb (bin_power (cur s).kind) min_bp)
          (ground (arith, h.0)))

  pub unary_other :
      (u : ℕ) (postfix : Parser Expr) (s : Toks)
      → ((cur s).kind == Token.bang) ≡ false
      → ((cur s).kind == Token.minus) ≡ false
      → parse_unary expr (suc u) postfix s ≡ postfix s
  unfolding parse_unary ◌>>=◌ gets pure modify
  unary_other u postfix s nb nm =
      ap (λ (m : Parser Expr). m s)
        (if_false _ _ ((cur s).kind == Token.bang) nb
          ∙ if_false _ _ ((cur s).kind == Token.minus) nm)

  pub unary_bang :
      (u : ℕ) (postfix : Parser Expr) (p : Token.Pos) (x : Expr) (s' s : Toks)
      → parse_unary expr u postfix s' ≡ (ok x, s)
      → parse_unary expr (suc u) postfix (ahead (mark Token.bang p) s')
        ≡ (ok (unary p Token.bang x), s)
  unfolding parse_unary ◌>>=◌ gets pure modify
  unary_bang u postfix p x s' s e = ap (continue (λ y. pure (unary p Token.bang y))) e

  pub unary_minus :
      (u : ℕ) (postfix : Parser Expr) (p : Token.Pos) (x : Expr) (s' s : Toks)
      → expr 7 s' ≡ (ok x, s)
      → parse_unary expr (suc u) postfix (ahead (mark Token.minus p) s')
        ≡ (ok (unary p Token.minus x), s)
  unfolding parse_unary ◌>>=◌ gets pure modify
  unary_minus u postfix p x s' s e = ap (continue (λ y. pure (unary p Token.minus y))) e

  pub postfix_paren :
      (k : ℕ) (p q : Token.Pos) (x : Expr) (s' s : Toks)
      → expr 0 s' ≡ (ok x, ahead (mark Token.r_paren q) s)
      → parse_postfix expr k (ahead (mark Token.l_paren p) s') ≡ parse_suffixes expr k x s
  unfolding parse_postfix parse_primary primary_at ◌>>=◌ gets pure modify expect advance
  postfix_paren k p q x s' s e =
      ap
        (λ r.
          continue (parse_suffixes expr k) (continue (λ y. expect Token.r_paren >>= λ _. pure y) r))
        e

  pub postfix_stop :
      (k : ℕ) (again : Expr → Parser Expr) (x : Expr) (t : Token.Token) (s : Toks)
      (kind : Token.Kind)
      → is_suffix kind ≡ false
      → postfix_at expr kind k again x t s ≡ (ok x, s)
  unfolding postfix_at pure
  postfix_stop k again x t s Token.l_paren h = cc h
  postfix_stop k again x t s Token.dot h = cc h
  postfix_stop k again x t s Token.l_brack h = cc h
  postfix_stop k again x t s _ h = refl

  pub suffixes_stop :
      (k : ℕ) (x : Expr) (s : Toks)
      → is_suffix (cur s).kind ≡ false
      → parse_suffixes expr (suc k) x s ≡ (ok x, s)
  unfolding parse_suffixes ◌>>=◌ gets
  suffixes_stop k x s h = postfix_stop (suc k) (parse_suffixes expr k) x (cur s) s (cur s).kind h

  pub index_lem :
      (p q : Token.Pos) (x i : Expr) (s' s : Toks)
      → ((cur s').kind == Token.colon) ≡ false
      → expr 0 s' ≡ (ok i, ahead (mark Token.r_brack q) s)
      → parse_index_or_slice expr p x s' ≡ (ok (index p x i), s)
  unfolding parse_index_or_slice ◌>>=◌ gets pure modify expect advance
  index_lem p q x i s' s nc e = rw (nc, e)

  pub suffixes_index :
      (k : ℕ) (p q : Token.Pos) (x i : Expr) (s' s : Toks)
      → ((cur s').kind == Token.colon) ≡ false
      → expr 0 s' ≡ (ok i, ahead (mark Token.r_brack q) s)
      → parse_suffixes expr (suc k) x (ahead (mark Token.l_brack p) s')
        ≡ parse_suffixes expr k (index p x i) s
  unfolding parse_suffixes postfix_at ◌>>=◌ gets modify
  suffixes_index k p q x i s' s nc e =
      ap (continue (parse_suffixes expr k)) (index_lem p q x i s' s nc e)
