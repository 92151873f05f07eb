-- ===== src/Syntax/Parser.antt =====
-- internal/parser/parser.go: the expressions, by precedence climbing. Each nested expression, and each
-- turn of a loop, takes fuel.
pub mod Reads
mod Print
mod Steps
mod Trees
mod RoundTrip
pub mod Total
mod Tests
use cgpipe.Prelude.{
  ℕ, zero, suc, ◌+◌, ◌-◌, ◌*◌, ◌^◌, List, [], ◌∷◌, ◌++◌, Bool, true, false, not, ◌&&◌, ◌||◌, Option,
  none, some, nat_eq, if◌then◌else◌, leb, ltb, ◌==◌, length,
}
use cgpipe.Exec.{Result, ok, err, Exec, pure, fail, gets, modify, ◌>>=◌, ◌>>◌}
use cgpipe.Text.{Str, codes}
use cgpipe.Syntax.Token
use cgpipe.Syntax.Token.{kind_eq}
use cgpipe.Syntax.Lexer.{is_digit, tokenize}
use cgpipe.Syntax.Ast.{
  Expr, int_lit, float_lit, string_lit, ident, bool_lit, list_lit, range_lit, index, slice, call,
  map_lit, unary, binary, Operand, absent, present, Exprs, no_exprs, expr_then, KwArgs, no_kwargs,
  kwarg_then, Entries, no_entries, entry_then,
}
use cgpipe.Syntax.Cursor.{
  Toks, last, ahead, cur, advanced, peek, Failure, out_of_fuel, failed, expected, unexpected,
  behind_expression, bad_integer, bad_float, no_method_call, positional_after_keyword, Parser,
  accept, expect, skip_separators,
}

-- binPower: 0 for a token that is no operator
abbrev pub bin_power : Token.Kind → ℕ
bin_power Token.or_or = 1
bin_power Token.and_and = 2
bin_power Token.eq = 3
bin_power Token.neq = 3
bin_power Token.lt = 3
bin_power Token.le = 3
bin_power Token.gt = 3
bin_power Token.ge = 3
bin_power Token.dot_dot = 4
bin_power Token.plus = 5
bin_power Token.minus = 5
bin_power Token.star = 6
bin_power Token.slash = 6
bin_power Token.percent = 6
bin_power Token.pow = 7
bin_power _ = 0

-- the binding power that the right operand is parsed at
abbrev pub next_min : Token.Kind → ℕ
next_min k = if k == Token.pow then bin_power k else suc (bin_power k)

abbrev pub joined : Token.Kind → Token.Pos → Expr → Expr → Expr
joined op p l r = if op == Token.dot_dot then range_lit p l r else binary p op l r

-- strconv.ParseInt(text, 10, 64) of a text of digits
abbrev pub digits_from : ℕ → Str → Option ℕ
digits_from n [] = some n
digits_from n (c ∷ s) = if is_digit c then digits_from (10 * n + (c - b'0')) s else none

abbrev in_int64 : Option ℕ → Option ℕ
in_int64 none = none
in_int64 (some n) = if ltb n (2 ^ 63) then some n else none

abbrev pub parse_int : Str → Option ℕ
parse_int [] = none
parse_int (c ∷ s) = in_int64 (digits_from 0 (c ∷ s))

-- strconv.ParseFloat(text, 64) of digits with a fraction fails when the nearest float64 is not
-- finite, which is from 2^1024 - 2^970 on.
abbrev split_dot : Str → Str × Str
split_dot [] = ([], [])
split_dot (c ∷ s) = let more = split_dot s in if c == b'.' then ([], s) else (c ∷ more.0, more.1)

abbrev pub float_fits : Str → Bool
float_fits s = elim (digits_from 0 (split_dot s).0) [
  | none ↦ false
  | some n ↦ ltb n (2 ^ 1024 - 2 ^ 970)
]

-- Behind an item of a list: the next item, or the end of the list.
unfoldable pub after_item {ℓ} : {A : Type ℓ} → Token.Kind → A → Parser A → Parser A
unfolding ◌>>=◌ pure gets accept
after_item close empty again = do
  more ← accept Token.comma
  t ← gets cur
  if more && not (t.kind == close) then again else pure empty

-- A list up to its closing token, which may follow at once.
unfoldable pub up_to {ℓ} : {A : Type ℓ} → Token.Kind → A → Parser A → Parser A
unfolding ◌>>=◌ pure gets expect
up_to close empty items = do
  t ← gets cur
  a ← if t.kind == close then pure empty else items
  _ ← expect close
  pure a

abbrev pub integer : Token.Token → Option ℕ → Parser Expr
integer t none = fail (failed t.pos (bad_integer t.lit))
integer t (some n) = pure (int_lit t.pos n)

abbrev pub decimal : Token.Token → Bool → Parser Expr
decimal t true = pure (float_lit t.pos t.lit)
decimal t false = fail (failed t.pos (bad_float t.lit))

abbrev pub free_call : Token.Token → (Str → Parser Expr) → Expr → Parser Expr
free_call t with_args (ident p name) = with_args name
free_call t with_args x = pure x

abbrev pub dotted : Token.Token → Str → (Expr → Parser Expr) → Expr → Parser Expr
dotted t name again (ident p first) = again (ident p (first ++ (b'.' ∷ name)))
dotted t name again x = fail (failed t.pos (no_method_call name))

-- What nests is parsed by `expr`, and `fuel` bounds the turns of the loops.
module _ (expr : ℕ → Parser Expr) where
  unfoldable pub parse_unary : ℕ → Parser Expr → Parser Expr
  unfolding ◌>>=◌ pure fail gets modify
  parse_unary zero postfix = fail out_of_fuel
  parse_unary (suc fuel) postfix =
      let again = parse_unary fuel postfix in
      do
        t ← gets cur
        if t.kind == Token.bang
            then (modify advanced >> again >>= λ x. pure (unary t.pos Token.bang x))
            else if t.kind == Token.minus
            then (modify advanced >> expr (bin_power Token.pow) >>= λ x.
                pure (unary t.pos Token.minus x))
            else postfix

  -- The loop of parseExpr.
  unfoldable pub parse_binary : ℕ → ℕ → Expr → Parser Expr
  unfolding ◌>>=◌ pure fail gets modify
  parse_binary zero min_bp left = fail out_of_fuel
  parse_binary (suc fuel) min_bp left =
      let again = parse_binary fuel min_bp in
      do
        t ← gets cur
        if bin_power t.kind == 0 || ltb (bin_power t.kind) min_bp
            then pure left
            else (modify advanced >> expr (next_min t.kind) >>= λ right.
                again (joined t.kind t.pos left right))

  unfoldable pub parse_items : ℕ → Parser Exprs
  unfolding ◌>>=◌ pure fail after_item
  parse_items zero = fail out_of_fuel
  parse_items (suc fuel) =
      let again = parse_items fuel in
      do e ← expr 0; es ← after_item Token.r_brack no_exprs again; pure (expr_then e es)

  unfoldable pub parse_entries : ℕ → Parser Entries
  unfolding ◌>>=◌ pure fail expect after_item
  parse_entries zero = fail out_of_fuel
  parse_entries (suc fuel) =
      let again = parse_entries fuel in
      do
        key ← expr 0
        _ ← expect Token.colon
        val ← expr 0
        es ← after_item Token.r_brace no_entries again
        pure (entry_then key val es)

  -- The loop of parseCallArgs; the flag tells that there was a keyword argument.
  unfoldable pub parse_args : ℕ → Bool → Parser (Exprs × KwArgs)
  unfolding ◌>>=◌ pure fail gets modify after_item
  parse_args zero named = fail out_of_fuel
  parse_args (suc fuel) named =
      let again = parse_args fuel in
      let keyword : Str → Parser (Exprs × KwArgs) = λ name. do
        modify advanced
        modify advanced
        e ← expr 0
        rest ← after_item Token.r_paren (no_exprs, no_kwargs) (again true)
        pure (rest.0, kwarg_then name e rest.1)
      in let positional = do
        e ← expr 0
        rest ← after_item Token.r_paren (no_exprs, no_kwargs) (again false)
        pure (expr_then e rest.0, rest.1)
        in do
          t ← gets cur
          u ← gets peek
          if t.kind == Token.ident && u.kind == Token.assign
              then keyword t.lit
              else if named
              then fail (failed t.pos positional_after_keyword)
              else positional

  unfoldable pub parse_call_args : ℕ → Parser (Exprs × KwArgs)
  unfolding parse_args up_to
  parse_call_args fuel = up_to Token.r_paren (no_exprs, no_kwargs) (parse_args fuel false)

  unfoldable pub parse_list_lit : ℕ → Parser Expr
  unfolding ◌>>=◌ pure expect parse_items up_to
  parse_list_lit fuel = do
    t ← expect Token.l_brack
    es ← up_to Token.r_brack no_exprs (parse_items fuel)
    pure (list_lit t.pos es)

  unfoldable pub parse_map_lit : ℕ → Parser Expr
  unfolding ◌>>=◌ pure expect parse_entries up_to
  parse_map_lit fuel = do
    t ← expect Token.l_brace
    es ← up_to Token.r_brace no_entries (parse_entries fuel)
    pure (map_lit t.pos es)

  -- The switch of parsePrimary.
  unfoldable pub primary_at : Token.Kind → ℕ → Token.Token → Parser Expr
  unfolding ◌>>=◌ pure fail modify expect parse_list_lit parse_map_lit
  primary_at Token.int fuel t = modify advanced >> integer t (parse_int t.lit)
  primary_at Token.float fuel t = modify advanced >> decimal t (float_fits t.lit)
  primary_at Token.string fuel t = modify advanced >> pure (string_lit t.pos t.lit)
  primary_at Token.kw_true fuel t = modify advanced >> pure (bool_lit t.pos true)
  primary_at Token.kw_false fuel t = modify advanced >> pure (bool_lit t.pos false)
  primary_at Token.ident fuel t = modify advanced >> pure (ident t.pos t.lit)
  primary_at Token.l_paren fuel t = do modify advanced; e ← expr 0; _ ← expect Token.r_paren; pure e
  primary_at Token.l_brack fuel t = parse_list_lit fuel
  primary_at Token.l_brace fuel t = parse_map_lit fuel
  primary_at _ fuel t = fail (failed t.pos (unexpected t))

  unfoldable pub parse_primary : ℕ → Parser Expr
  unfolding ◌>>=◌ gets primary_at
  parse_primary fuel = do t ← gets cur; primary_at t.kind fuel t

  -- The upper bound of a slice and its bracket.
  unfoldable pub parse_upper : Parser Operand
  unfolding ◌>>=◌ pure up_to
  parse_upper = up_to Token.r_brack absent (expr 0 >>= λ e. pure (present e))

  unfoldable pub parse_index_or_slice : Token.Pos → Expr → Parser Expr
  unfolding ◌>>=◌ pure gets modify expect parse_upper
  parse_index_or_slice p recv =
      let open_start = do modify advanced; hi ← parse_upper; pure (slice p recv absent hi)
      in let slice_from : Expr → Parser Expr =
          λ lo. do modify advanced; hi ← parse_upper; pure (slice p recv (present lo) hi)
        in let index_at : Expr → Parser Expr =
            λ lo. do _ ← expect Token.r_brack; pure (index p recv lo)
          in let with_start = do
            lo ← expr 0
            u ← gets cur
            if u.kind == Token.colon then slice_from lo else index_at lo
            in do t ← gets cur; if t.kind == Token.colon then open_start else with_start

  -- The switch of parsePostfix.
  unfoldable pub postfix_at :
      Token.Kind → ℕ → (Expr → Parser Expr) → Expr → Token.Token → Parser Expr
  unfolding ◌>>=◌ pure fail gets modify expect parse_call_args parse_index_or_slice
  postfix_at Token.l_paren fuel again x t =
      free_call t
        (λ name. do
          modify advanced
          args ← parse_call_args fuel
          again (call t.pos absent name args.0 args.1))
        x
  postfix_at Token.dot fuel again x t =
      let method : Str → Parser Expr = λ name. do
        modify advanced
        args ← parse_call_args fuel
        again (call t.pos (present x) name args.0 args.1)
      in do
        modify advanced
        name ← expect Token.ident
        u ← gets cur
        if u.kind == Token.l_paren then method name.lit else dotted t name.lit again x
  postfix_at Token.l_brack fuel again x t = do
    modify advanced
    y ← parse_index_or_slice t.pos x
    again y
  postfix_at _ fuel again x t = pure x

  -- The loop of parsePostfix.
  unfoldable pub parse_suffixes : ℕ → Expr → Parser Expr
  unfolding ◌>>=◌ fail gets postfix_at
  parse_suffixes zero x = fail out_of_fuel
  parse_suffixes (suc fuel) x =
      let again = parse_suffixes fuel in do t ← gets cur; postfix_at t.kind (suc fuel) again x t

  unfoldable pub parse_postfix : ℕ → Parser Expr
  unfolding ◌>>=◌ parse_primary parse_suffixes
  parse_postfix fuel = do x ← parse_primary fuel; parse_suffixes fuel x

unfoldable pub parse_expr : ℕ → ℕ → Parser Expr
unfolding ◌>>=◌ fail parse_unary parse_postfix parse_binary
parse_expr zero min_bp = fail out_of_fuel
parse_expr (suc fuel) min_bp =
    let nested = parse_expr fuel in
    do
      left ← parse_unary nested (suc fuel) (parse_postfix nested (suc fuel))
      parse_binary nested (suc fuel) min_bp left

unfoldable pub parse_whole : ℕ → Parser Expr
unfolding ◌>>=◌ pure fail gets skip_separators parse_expr
parse_whole fuel = do
  skip_separators
  e ← parse_expr fuel 0
  skip_separators
  t ← gets cur
  if t.kind == Token.eof then pure e else fail (failed t.pos (behind_expression t))

abbrev pub toks_from : Token.Token → List Token.Token → Toks
toks_from t [] = last t
toks_from t (u ∷ ts) = ahead t (toks_from u ts)

-- `Tokenize` always returns a token.
abbrev pub parse_tokens : Option (List Token.Token) → Result Failure Expr
parse_tokens none = err out_of_fuel
parse_tokens (some []) = err out_of_fuel
parse_tokens (some (t ∷ ts)) = (parse_whole (suc (length ts)) (toks_from t ts)).0

-- ParseExpr
unfoldable pub parse_text : Str → Result Failure Expr
unfolding tokenize parse_whole
parse_text src = parse_tokens (tokenize src (codes "<expr>"))
