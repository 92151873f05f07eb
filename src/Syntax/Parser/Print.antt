-- ===== src/Syntax/Parser/Print.antt =====
-- Expressions with operators as a text would write them: the tokens of a tree, in parentheses only
-- where the precedence asks for them, and the expression that the tree stands for.
use cgpipe.Prelude.{
  [], ℕ, suc, ◌+◌, ◌-◌, ◌<◌, Bool, true, false, not, some, if◌then◌else◌, ltb, ◌≡◌,
}
use cgpipe.Text.{Str}
use cgpipe.Syntax.Token
use cgpipe.Syntax.Ast.{Expr, int_lit, string_lit, bool_lit, ident, index, unary, binary, range_lit}
use cgpipe.Syntax.Cursor.{Toks, ahead, cur}
use cgpipe.Syntax.Parser.{bin_power, parse_int}

pub data Op : Type 0 where
  op_or op_and op_eq op_neq op_lt op_le op_gt op_ge : Op
  op_range op_add op_sub op_mul op_div op_rem op_pow : Op

abbrev pub op_kind : Op → Token.Kind
op_kind op_or = Token.or_or
op_kind op_and = Token.and_and
op_kind op_eq = Token.eq
op_kind op_neq = Token.neq
op_kind op_lt = Token.lt
op_kind op_le = Token.le
op_kind op_gt = Token.gt
op_kind op_ge = Token.ge
op_kind op_range = Token.dot_dot
op_kind op_add = Token.plus
op_kind op_sub = Token.minus
op_kind op_mul = Token.star
op_kind op_div = Token.slash
op_kind op_rem = Token.percent
op_kind op_pow = Token.pow

-- The precedence of the operators, from the loosest on.
abbrev pub power : Op → ℕ
power op_or = 1
power op_and = 2
power op_eq = 3
power op_neq = 3
power op_lt = 3
power op_le = 3
power op_gt = 3
power op_ge = 3
power op_range = 4
power op_add = 5
power op_sub = 5
power op_mul = 6
power op_div = 6
power op_rem = 6
power op_pow = 7

-- `**` associates to the right, the others to the left: what the right operand must at least have.
abbrev pub right_power : Op → ℕ
right_power op_pow = 7
right_power o = suc (power o)

abbrev pub combined : Op → Token.Pos → Expr → Expr → Expr
combined op_range p l r = range_lit p l r
combined o p l r = binary p (op_kind o) l r

pub data Tree : Type 0 where
  name text : Token.Pos → Str → Tree
  truth : Token.Pos → Bool → Tree
  number : Token.Pos → (lit : Str) (n : ℕ) → parse_int lit ≡ some n → Tree
  infix_at : Op → Token.Pos → Tree → Tree → Tree
  negation opposite : Token.Pos → Tree → Tree
  item : Token.Pos → Tree → Tree → Tree

abbrev pub size : Tree → ℕ
size (infix_at o p l r) = suc (size l + size r)
size (negation p x) = suc (size x)
size (opposite p x) = suc (size x)
size (item p x i) = suc (size x + size i)
size _ = 1

abbrev pub expr_of : Tree → Expr
expr_of (name p s) = ident p s
expr_of (text p s) = string_lit p s
expr_of (truth p b) = bool_lit p b
expr_of (number p lit n e) = int_lit p n
expr_of (infix_at o p l r) = combined o p (expr_of l) (expr_of r)
expr_of (negation p x) = unary p Token.bang (expr_of x)
expr_of (opposite p x) = unary p Token.minus (expr_of x)
expr_of (item p x i) = index p (expr_of x) (expr_of i)

-- The highest binding power at which the tree needs no parentheses: `**` has 7.
abbrev pub level : Tree → ℕ
level (infix_at o p l r) = power o
level _ = 8

-- An operator of this power or a higher one would be read into the end of the tree.
abbrev pub cap : Tree → ℕ
cap (infix_at o p l r) = right_power o
cap (opposite p x) = 7
cap (negation p x) = if ltb (level x) 8 then 8 else cap x
cap _ = 8

abbrev pub is_receiver : Tree → Bool
is_receiver (infix_at o p l r) = false
is_receiver (negation p x) = false
is_receiver (opposite p x) = false
is_receiver _ = true

abbrev pub mark : Token.Kind → Token.Pos → Token.Token
mark k p = record { kind = k; lit = []; pos = p }

abbrev pub word : Token.Kind → Str → Token.Pos → Token.Token
word k lit p = record { kind = k; lit = lit; pos = p }

-- The tokens of a tree before the tokens `s`, in parentheses or not.
abbrev pub in_parens : Bool → (Toks → Toks) → Toks → Toks
in_parens true tokens s =
    ahead (mark Token.l_paren Token.no_pos) (tokens (ahead (mark Token.r_paren Token.no_pos) s))
in_parens false tokens s = tokens s

abbrev pub bare : Tree → Toks → Toks
bare (name p lit) s = ahead (word Token.ident lit p) s
bare (text p lit) s = ahead (word Token.string lit p) s
bare (truth p true) s = ahead (mark Token.kw_true p) s
bare (truth p false) s = ahead (mark Token.kw_false p) s
bare (number p lit n e) s = ahead (word Token.int lit p) s
bare (infix_at o p l r) s =
    in_parens (not (ltb (power o) (cap l))) (bare l)
      (ahead (mark (op_kind o) p) (in_parens (ltb (level r) (right_power o)) (bare r) s))
bare (negation p x) s = ahead (mark Token.bang p) (in_parens (ltb (level x) 8) (bare x) s)
bare (opposite p x) s = ahead (mark Token.minus p) (in_parens (ltb (level x) 7) (bare x) s)
bare (item p x i) s =
    in_parens (not (is_receiver x)) (bare x)
      (ahead (mark Token.l_brack p) (bare i (ahead (mark Token.r_brack Token.no_pos) s)))

abbrev pub emit : ℕ → Tree → Toks → Toks
emit min_bp t s = in_parens (ltb (level t) min_bp) (bare t) s

abbrev pub is_suffix : Token.Kind → Bool
is_suffix Token.l_paren = true
is_suffix Token.dot = true
is_suffix Token.l_brack = true
is_suffix _ = false

-- What follows does not go on with an expression that is read at the power `min_bp`.
abbrev pub Ends : ℕ → Toks → Type 0
Ends min_bp s = (bin_power (cur s).kind < suc (min_bp - 1)) × (is_suffix (cur s).kind ≡ false)
