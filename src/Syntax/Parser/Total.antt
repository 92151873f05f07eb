-- ===== src/Syntax/Parser/Total.antt =====
-- Enough fuel for the parser of expressions: each nested call and each turn of a loop reads a token.
use cgpipe.Prelude.{
  ℕ, zero, suc, ◌-◌, ◌≤◌, Bool, true, false, ◌&&◌, ◌||◌, Option, none, some, nat_eq, ltb, ◌==◌,
  length, ◌≡◌, ◌≢◌, refl, sym, ap, ◌∙◌, arith, List, [], ◌∷◌,
}
use cgpipe.Text.{Str, codes}
use cgpipe.Exec.{Result, ok, err, pure, modify, ◌>>=◌}
use cgpipe.Exec.Triple.{
  Triple, Post, triple_pure, triple_gets, triple_if, triple_bind, triple_modify,
}
use cgpipe.Syntax.Token
use cgpipe.Syntax.Token.{kind_eq, kind_beq_iff}
use cgpipe.Syntax.Lexer.Stream.{EndsAtEof, tokenize_lem}
use cgpipe.Syntax.Cursor.{
  Toks, advanced, peek, Failure, out_of_fuel, positional_after_keyword, behind_expression, Parser,
}
use cgpipe.Syntax.Ast.{
  Expr, Operand, no_exprs, expr_then, no_kwargs, kwarg_then, no_entries, entry_then, list_lit,
  map_lit, absent, present, slice, index, call, ident, unary,
}
use cgpipe.Syntax.Parser.{
  bin_power, next_min, joined, parse_unary, parse_binary, after_item, parse_items, parse_entries,
  parse_args, parse_call_args, parse_list_lit, parse_map_lit, integer, decimal, primary_at,
  parse_primary, parse_upper, parse_index_or_slice, free_call, dotted, postfix_at, parse_suffixes,
  parse_postfix, parse_expr, parse_whole, toks_from, parse_tokens, parse_text,
}
use cgpipe.Syntax.Parser.Reads.{
  ClosedByEof, count, Within, Never, Reads, At, advanced-Within_same, kind-true, Reads-to,
  nothing_left, Reads-if, at_cur, stay, step, refuse, expect-Reads, skip_separators-Reads, pred_le,
  after_item-Reads, up_to-Reads,
}

module _ (f : ℕ) (expr : ℕ → Parser Expr)
    (nested : (min_bp n : ℕ) → n ≤ f → Reads n (expr min_bp) (n - 1)) where
  parse_items-Reads : (k n : ℕ) → n ≤ k → n ≤ f → Reads n (parse_items expr k) n
  unfolding parse_items
  parse_items-Reads zero zero le lf = nothing_left
  parse_items-Reads zero (suc n) le lf = absurd (omega (arith, le))
  parse_items-Reads (suc k) n le lf = Reads-to (pred_le n) (
      triple_bind (nested 0 n lf) λ e.
        triple_bind
          (after_item-Reads (n - 1) Token.r_brack no_exprs _
            (parse_items-Reads k (n - 1) (omega (arith, le)) (omega (arith, lf))))
          λ es. triple_pure (expr_then e es))

  parse_entries-Reads : (k n : ℕ) → n ≤ k → n ≤ f → Reads n (parse_entries expr k) n
  unfolding parse_entries
  parse_entries-Reads zero zero le lf = nothing_left
  parse_entries-Reads zero (suc n) le lf = absurd (omega (arith, le))
  parse_entries-Reads (suc k) n le lf = triple_bind (nested 0 n lf) λ key.
      triple_bind (expect-Reads (n - 1) Token.colon (λ e. cc e)) λ _.
        triple_bind (nested 0 (n - 1 - 1) (omega (arith, lf))) λ val. Reads-to (omega arith) (
          triple_bind
            (after_item-Reads (n - 1 - 1 - 1) Token.r_brace no_entries _
              (parse_entries-Reads k (n - 1 - 1 - 1) (omega (arith, le)) (omega (arith, lf))))
            λ es. triple_pure (entry_then key val es))

  parse_args-Reads : (k n : ℕ) (named : Bool) → n ≤ k → n ≤ f → Reads n (parse_args expr k named) n
  unfolding parse_args
  parse_args-Reads zero zero named le lf = nothing_left
  parse_args-Reads zero (suc n) named le lf = absurd (omega (arith, le))
  parse_args-Reads (suc k) n named le lf =
      let rest : (b : Bool)
          → Reads (n - 1) (after_item Token.r_paren (no_exprs, no_kwargs) (parse_args expr k b))
              (n - 1) =
        λ b.
          after_item-Reads (n - 1) Token.r_paren (no_exprs, no_kwargs) _
            (parse_args-Reads k (n - 1) b (omega (arith, le)) (omega (arith, lf))) in
      at_cur λ t. stay (
        triple_bind (triple_gets {Q = λ _. Within n} peek λ s w. w) λ u.
          Reads-if (t.kind == Token.ident && u.kind == Token.assign)
            (triple_bind (triple_modify (Within n) advanced (advanced-Within_same n)) λ _.
              triple_bind (triple_modify (Within n) advanced (advanced-Within_same n)) λ _.
                triple_bind (nested 0 n lf) λ e.
                  Reads-to (pred_le n)
                    (triple_bind (rest true) λ r. triple_pure (r.0, kwarg_then t.lit e r.1)))
            (Reads-if named (refuse t.pos positional_after_keyword) (
              triple_bind (nested 0 n lf) λ e.
                Reads-to (pred_le n)
                  (triple_bind (rest false) λ r. triple_pure (expr_then e r.0, r.1)))))

  parse_call_args-Reads : (k n : ℕ) → n ≤ k → n ≤ f → Reads n (parse_call_args expr k) n
  unfolding parse_call_args
  parse_call_args-Reads k n le lf =
      up_to-Reads n Token.r_paren (no_exprs, no_kwargs) _ (λ e. cc e)
        (parse_args-Reads k n false le lf)

  parse_list_lit-Reads : (k n : ℕ) → n - 1 ≤ k → n - 1 ≤ f → Reads n (parse_list_lit expr k) (n - 1)
  unfolding parse_list_lit
  parse_list_lit-Reads k n le lf = triple_bind (expect-Reads n Token.l_brack λ e. cc e) λ t.
      triple_bind
        (up_to-Reads (n - 1) Token.r_brack no_exprs _ (λ e. cc e)
          (parse_items-Reads k (n - 1) le lf))
        λ es. triple_pure (list_lit t.pos es)

  parse_map_lit-Reads : (k n : ℕ) → n - 1 ≤ k → n - 1 ≤ f → Reads n (parse_map_lit expr k) (n - 1)
  unfolding parse_map_lit
  parse_map_lit-Reads k n le lf = triple_bind (expect-Reads n Token.l_brace λ e. cc e) λ t.
      triple_bind
        (up_to-Reads (n - 1) Token.r_brace no_entries _ (λ e. cc e)
          (parse_entries-Reads k (n - 1) le lf))
        λ es. triple_pure (map_lit t.pos es)

  integer-Reads : (n : ℕ) (t : Token.Token) (x : Option ℕ) → Reads n (integer t x) n
  integer-Reads n t none = refuse _ _
  integer-Reads n t (some v) = triple_pure _

  decimal-Reads : (n : ℕ) (t : Token.Token) (b : Bool) → Reads n (decimal t b) n
  decimal-Reads n t true = triple_pure _
  decimal-Reads n t false = refuse _ _

  primary_at-Reads :
      (k : ℕ) (n : ℕ) (t : Token.Token) (kind : Token.Kind)
      → n - 1 ≤ k
      → n - 1 ≤ f
      → t.kind ≡ kind
      → Triple (At n t) (primary_at expr kind k t) (λ _. Within (n - 1)) Never
  unfolding primary_at
  primary_at-Reads k n t Token.int le lf e = step (λ q. cc (e, q)) (integer-Reads (n - 1) t _)
  primary_at-Reads k n t Token.float le lf e = step (λ q. cc (e, q)) (decimal-Reads (n - 1) t _)
  primary_at-Reads k n t Token.string le lf e = step (λ q. cc (e, q)) (triple_pure _)
  primary_at-Reads k n t Token.kw_true le lf e = step (λ q. cc (e, q)) (triple_pure _)
  primary_at-Reads k n t Token.kw_false le lf e = step (λ q. cc (e, q)) (triple_pure _)
  primary_at-Reads k n t Token.ident le lf e = step (λ q. cc (e, q)) (triple_pure _)
  primary_at-Reads k n t Token.l_paren le lf e =
      step (λ q. cc (e, q))
        (triple_bind (nested 0 (n - 1) lf) λ x.
          triple_bind (Reads-to (omega arith) (expect-Reads (n - 1 - 1) Token.r_paren λ q. cc q))
            λ _. triple_pure x)
  primary_at-Reads k n t Token.l_brack le lf e = stay (parse_list_lit-Reads k n le lf)
  primary_at-Reads k n t Token.l_brace le lf e = stay (parse_map_lit-Reads k n le lf)
  primary_at-Reads k n t _ le lf e = stay (refuse _ _)

  parse_primary-Reads : (k n : ℕ) → n - 1 ≤ k → n - 1 ≤ f → Reads n (parse_primary expr k) (n - 1)
  unfolding parse_primary
  parse_primary-Reads k n le lf = at_cur λ t. primary_at-Reads k n t t.kind le lf refl

  parse_upper-Reads : (n : ℕ) → n ≤ f → Reads n (parse_upper expr) n
  unfolding parse_upper
  parse_upper-Reads n lf =
      up_to-Reads n Token.r_brack absent _ (λ e. cc e)
        (Reads-to (pred_le n) (triple_bind (nested 0 n lf) λ e. triple_pure (present e)))

  parse_index_or_slice-Reads :
      (n : ℕ) (p : Token.Pos) (recv : Expr) → n ≤ f → Reads n (parse_index_or_slice expr p recv) n
  unfolding parse_index_or_slice
  parse_index_or_slice-Reads n p recv lf =
      let bounded : (lo : Operand) (m : ℕ)
          → m ≤ n
          → Reads m (modify advanced >>= λ _. parse_upper expr >>= λ hi. pure (slice p recv lo hi))
              n =
        λ lo m le. triple_bind (triple_modify (Within m) advanced (advanced-Within_same m)) λ _.
          Reads-to le (
            triple_bind (parse_upper-Reads m (omega (arith, le, lf)))
              λ hi. triple_pure (slice p recv lo hi)) in
      at_cur λ t. stay (
        Reads-if (t.kind == Token.colon) (bounded absent n (omega arith)) (
          triple_bind (nested 0 n lf) λ lo. at_cur λ u. stay (
            Reads-if (u.kind == Token.colon) (bounded (present lo) (n - 1) (pred_le n)) (
              Reads-to (omega arith) (
                triple_bind (expect-Reads (n - 1) Token.r_brack λ e. cc e)
                  λ _. triple_pure (index p recv lo))))))

  free_call-Reads :
      (n : ℕ) (t : Token.Token) (g : Str → Parser Expr) (x : Expr)
      → ((name : Str) → Triple (At n t) (g name) (λ _. Within n) Never)
      → Triple (At n t) (free_call t g x) (λ _. Within n) Never
  free_call-Reads n t g (ident p name) h = h name
  free_call-Reads n t g _ h = stay (triple_pure _)

  dotted-Reads :
      (n : ℕ) (t : Token.Token) (name : Str) (again : Expr → Parser Expr) (x : Expr)
      → ((y : Expr) → Reads n (again y) n)
      → Reads n (dotted t name again x) n
  dotted-Reads n t name again (ident p first) h = h _
  dotted-Reads n t name again _ h = refuse _ _

  postfix_at-Reads :
      (k n : ℕ) (again : Expr → Parser Expr) (x : Expr) (t : Token.Token) (kind : Token.Kind)
      → n - 1 ≤ k
      → n - 1 ≤ f
      → t.kind ≡ kind
      → ((y : Expr) (m : ℕ) → m ≤ n - 1 → Reads m (again y) m)
      → Triple (At n t) (postfix_at expr kind k again x t) (λ _. Within n) Never
  unfolding postfix_at
  postfix_at-Reads k n again x t Token.l_paren le lf e h = free_call-Reads n t _ x λ name.
      step (λ q. cc (e, q))
        (Reads-to (pred_le n)
          (triple_bind (parse_call_args-Reads k (n - 1) le lf) λ args. h _ (n - 1) (omega arith)))
  postfix_at-Reads k n again x t Token.dot le lf e h =
      step (λ q. cc (e, q))
        (triple_bind (expect-Reads (n - 1) Token.ident λ q. cc q) λ name. Reads-to (omega arith) (
          at_cur λ u. stay (
            Reads-if (u.kind == Token.l_paren)
              (triple_bind
                (triple_modify (Within (n - 1 - 1)) advanced (advanced-Within_same (n - 1 - 1)))
                λ _.
                  triple_bind
                    (parse_call_args-Reads k (n - 1 - 1) (omega (arith, le)) (omega (arith, lf)))
                    λ args.
                      h (call t.pos (present x) name.lit args.0 args.1) (n - 1 - 1) (omega arith))
              (dotted-Reads (n - 1 - 1) t name.lit again x λ y. h y (n - 1 - 1) (omega arith)))))
  postfix_at-Reads k n again x t Token.l_brack le lf e h =
      step (λ q. cc (e, q))
        (Reads-to (pred_le n) (
          triple_bind (parse_index_or_slice-Reads (n - 1) t.pos x lf)
            λ y. h y (n - 1) (omega arith)))
  postfix_at-Reads k n again x t _ le lf e h = stay (triple_pure x)

  parse_suffixes-Reads :
      (k n : ℕ) (x : Expr) → n ≤ k → n - 1 ≤ f → Reads n (parse_suffixes expr k x) n
  unfolding parse_suffixes
  parse_suffixes-Reads zero zero x le lf = nothing_left
  parse_suffixes-Reads zero (suc n) x le lf = absurd (omega (arith, le))
  parse_suffixes-Reads (suc k) n x le lf = at_cur λ t.
      postfix_at-Reads (suc k) n (parse_suffixes expr k) x t t.kind (omega (arith, le)) lf refl
        λ y m less. parse_suffixes-Reads k m y (omega (arith, le, less)) (omega (arith, lf, less))

  pub parse_postfix-Reads : (k n : ℕ) → n ≤ k → n - 1 ≤ f → Reads n (parse_postfix expr k) (n - 1)
  unfolding parse_postfix
  parse_postfix-Reads k n le lf =
      triple_bind (parse_primary-Reads k n (omega (arith, le)) lf)
        λ x. parse_suffixes-Reads k (n - 1) x (omega (arith, le)) (omega (arith, lf))

  parse_unary-Reads :
      (k n : ℕ) (postfix : Parser Expr)
      → n ≤ k
      → n - 1 ≤ f
      → ((m : ℕ) → m ≤ n → Reads m postfix (m - 1))
      → Reads n (parse_unary expr k postfix) (n - 1)
  unfolding parse_unary
  parse_unary-Reads zero zero postfix le lf h = nothing_left
  parse_unary-Reads zero (suc n) postfix le lf h = absurd (omega (arith, le))
  parse_unary-Reads (suc k) n postfix le lf h = at_cur λ t.
      triple_if (t.kind == Token.bang)
        (λ e.
          step (λ q. cc (kind-true t.kind Token.bang e, q))
            (Reads-to (pred_le (n - 1)) (
              triple_bind
                (parse_unary-Reads k (n - 1) postfix (omega (arith, le)) (omega (arith, lf))
                  λ m less. h m (omega (arith, less)))
                λ x. triple_pure (unary t.pos Token.bang x))))
        (λ _.
          triple_if (t.kind == Token.minus)
            (λ e.
              step (λ q. cc (kind-true t.kind Token.minus e, q))
                (Reads-to (pred_le (n - 1)) (
                  triple_bind (nested (bin_power Token.pow) (n - 1) lf)
                    λ x. triple_pure (unary t.pos Token.minus x))))
            (λ _. stay (h n (omega arith))))

  operator-not-eof :
      (k : Token.Kind) (min_bp : ℕ)
      → (bin_power k == 0 || ltb (bin_power k) min_bp) ≡ false
      → k ≢ Token.eof
  operator-not-eof k min_bp e q =
      cc (sym (ap (λ l. bin_power l == 0 || ltb (bin_power l) min_bp) q) ∙ e)

  parse_binary-Reads :
      (k n min_bp : ℕ) (left : Expr)
      → n ≤ k
      → n - 1 ≤ f
      → Reads n (parse_binary expr k min_bp left) n
  unfolding parse_binary
  parse_binary-Reads zero zero min_bp left le lf = nothing_left
  parse_binary-Reads zero (suc n) min_bp left le lf = absurd (omega (arith, le))
  parse_binary-Reads (suc k) n min_bp left le lf = at_cur λ t.
      triple_if (bin_power t.kind == 0 || ltb (bin_power t.kind) min_bp)
        (λ _. stay (triple_pure left))
        (λ e. step (operator-not-eof t.kind min_bp e) (
          triple_bind (nested (next_min t.kind) (n - 1) lf) λ right. Reads-to (omega arith) (
            parse_binary-Reads k (n - 1 - 1) min_bp (joined t.kind t.pos left right)
              (omega (arith, le)) (omega (arith, lf)))))

pub parse_expr-Reads : (f min_bp n : ℕ) → n ≤ f → Reads n (parse_expr f min_bp) (n - 1)
unfolding parse_expr
parse_expr-Reads zero min_bp zero le = nothing_left
parse_expr-Reads zero min_bp (suc n) le = absurd (omega (arith, le))
parse_expr-Reads (suc f) min_bp n le =
    let nested : (m n : ℕ) → n ≤ f → Reads n (parse_expr f m) (n - 1) = parse_expr-Reads f in
    triple_bind
      (parse_unary-Reads f (parse_expr f) nested (suc f) n _ le (omega (arith, le)) λ m less.
        parse_postfix-Reads f (parse_expr f) nested (suc f) m (omega (arith, le, less))
          (omega (arith, le, less)))
      λ left.
        parse_binary-Reads f (parse_expr f) nested (suc f) (n - 1) min_bp left (omega (arith, le))
          (omega (arith, le))

parse_whole-Reads : (f n : ℕ) → n ≤ f → Reads n (parse_whole f) n
unfolding parse_whole
parse_whole-Reads f n le = triple_bind (skip_separators-Reads n) λ _.
    triple_bind (parse_expr-Reads f 0 n le) λ e. Reads-to (pred_le n) (
      triple_bind (skip_separators-Reads (n - 1)) λ _. at_cur λ t.
        stay (Reads-if (t.kind == Token.eof) (triple_pure e) (refuse t.pos (behind_expression t))))

pub EndsAtEof-ClosedByEof :
    (src file : Str) (t : Token.Token) (ts : List Token.Token)
    → EndsAtEof src file (t ∷ ts)
    → ClosedByEof (toks_from t ts)
EndsAtEof-ClosedByEof src file t [] h = h
EndsAtEof-ClosedByEof src file t (u ∷ ts) h = EndsAtEof-ClosedByEof src file u ts h.1

pub count-toks_from : (t : Token.Token) (ts : List Token.Token) → count (toks_from t ts) ≡ length ts
count-toks_from t [] = refl
count-toks_from t (u ∷ ts) = ap suc (count-toks_from u ts)

Post-returns :
    (n : ℕ) (r : Result Failure Expr × Toks) → Post (λ _. Within n) Never r → r.0 ≢ err out_of_fuel
Post-returns n (ok e, s) h q = cc q
Post-returns n (err e, s) h q = h (cc q)

parse_tokens-returns :
    (src file : Str) (ts : List Token.Token)
    → EndsAtEof src file ts
    → parse_tokens (some ts) ≢ err out_of_fuel
parse_tokens-returns src file [] h = absurd h
parse_tokens-returns src file (t ∷ ts) h = Post-returns (suc (length ts)) _ (
    (parse_whole-Reads (suc (length ts)) (suc (length ts)) (omega arith)).at (toks_from t ts)
      (EndsAtEof-ClosedByEof src file t ts h, omega (arith, count-toks_from t ts)))

-- `ParseExpr` returns on every text, with an expression or with a parse error: as much fuel as the
-- text has tokens is enough for the nesting and for every loop.
pub parse_text_lem : (src : Str) → parse_text src ≢ err out_of_fuel
unfolding parse_text
parse_text_lem src =
    let (ts, e, _, ends) = tokenize_lem src (codes "<expr>") in
    λ q. parse_tokens-returns src (codes "<expr>") ts ends (ap parse_tokens (sym e) ∙ q)
