-- ===== src/Syntax/Statements/Total.antt =====
-- Enough fuel for the parser of files: each nested statement and each turn of a loop reads a token.
use cgpipe.Prelude.{
  ℕ, zero, suc, ◌-◌, ◌≤◌, ◌&&◌, List, [], ◌∷◌, some, nat_eq, ◌==◌, length, ◌≡◌, ◌≢◌, refl, sym, ap,
  ◌∙◌, arith,
}
use cgpipe.Text.{Str}
use cgpipe.Exec.{Result, ok, err, pure, ◌>>=◌}
use cgpipe.Exec.Triple.{Triple, Post, triple_pure, triple_pre, triple_bind, triple_modify}
use cgpipe.Syntax.Token
use cgpipe.Syntax.Token.{kind_eq}
use cgpipe.Syntax.Lexer.Stream.{EndsAtEof, tokenize_lem}
use cgpipe.Syntax.Ast.{Expr, absent, present}
use cgpipe.Syntax.Cursor.{
  Toks, cur, advanced, peek, Failure, out_of_fuel, unexpected, unclosed_block, Parser,
}
use cgpipe.Syntax.Parser.{parse_expr, parse_postfix, toks_from}
use cgpipe.Syntax.Parser.Reads.{
  Within, Never, Reads, At, at_cur, stay, advanced-Within_same, Reads-to, nothing_left, refuse,
  expect-Reads, accept-Reads, skip_separators-Reads, pred_le,
}
use cgpipe.Syntax.Parser.Total.{
  parse_postfix-Reads, parse_expr-Reads, EndsAtEof-ClosedByEof, count-toks_from,
}
use cgpipe.Syntax.Lookahead.{find_colon}
use cgpipe.Syntax.Stmt.{Stmt, Stmts, no_stmts, stmt_then, no_arms, arm_then, if_chain, for_loop}
use cgpipe.Syntax.Targets.{is_none}
use cgpipe.Syntax.Simple.Scans.{reading, saving, choose}
use cgpipe.Syntax.Simple.Total.{
  then_pure, parse_reserved_target-Reads, parse_target-Reads, parse_named-Begins,
}
use cgpipe.Syntax.Statements.{
  block_rest, parse_block, parse_arms, parse_if, parse_for, parse_other, stmt_at, parse_stmt,
  file_rest, parse_file, file_of, parse_file_tokens, parse,
}

module _ (src : Str) (expr postfix : Parser Expr) (stmt : Parser Stmt) (f : ℕ)
    (expr-Reads : (n : ℕ) → n ≤ suc f → Reads n expr (n - 1))
    (postfix-Reads : (n : ℕ) → n ≤ suc f → Reads n postfix (n - 1))
    (stmt-Reads : (n : ℕ) → n ≤ f → Reads n stmt (n - 1)) where
  block_rest-Reads : (k n : ℕ) → n ≤ k → n ≤ f → Reads n (block_rest src expr postfix stmt k) n
  unfolding block_rest
  block_rest-Reads zero zero le lf = nothing_left
  block_rest-Reads zero (suc n) le lf = absurd (omega (arith, le))
  block_rest-Reads (suc k) n le lf = triple_bind (skip_separators-Reads n) λ _. reading cur λ t.
      choose (t.kind == Token.r_brace)
        (triple_bind (triple_modify (Within n) advanced (advanced-Within_same n))
          λ _. triple_pure no_stmts)
        (choose (t.kind == Token.eof) (refuse t.pos unclosed_block) (
          triple_bind (stmt-Reads n lf) λ x. Reads-to (pred_le n) (
            then_pure (λ xs. stmt_then x xs)
              (block_rest-Reads k (n - 1) (omega (arith, le)) (omega (arith, lf))))))

  parse_block-Reads :
      (k n : ℕ) → n - 1 ≤ k → n - 1 ≤ f → Reads n (parse_block src expr postfix stmt k) (n - 1)
  unfolding parse_block
  parse_block-Reads k n le lf =
      triple_bind (expect-Reads n Token.l_brace λ e. cc e) λ _. block_rest-Reads k (n - 1) le lf

  parse_arms-Reads : (k n : ℕ) → n ≤ k → n ≤ f → Reads n (parse_arms src expr postfix stmt k) n
  unfolding parse_arms
  parse_arms-Reads zero zero le lf = nothing_left
  parse_arms-Reads zero (suc n) le lf = absurd (omega (arith, le))
  parse_arms-Reads (suc k) n le lf = saving n n λ save w. triple_bind (skip_separators-Reads n) λ _.
      reading cur λ t.
        choose (t.kind == Token.kw_elif)
          (triple_bind (triple_modify (Within n) advanced (advanced-Within_same n)) λ _.
            triple_bind (expr-Reads n (omega (arith, lf))) λ c.
              triple_bind
                (parse_block-Reads (suc k) (n - 1) (omega (arith, le)) (omega (arith, lf)))
                λ b. Reads-to (omega arith) (
                  then_pure (λ rest. (arm_then c b rest.0, rest.1))
                    (parse_arms-Reads k (n - 1 - 1) (omega (arith, le)) (omega (arith, lf)))))
          (choose (t.kind == Token.kw_else)
            (triple_bind (triple_modify (Within n) advanced (advanced-Within_same n)) λ _.
              Reads-to (pred_le n) (
                then_pure (λ b. (no_arms, b))
                  (parse_block-Reads (suc k) n (omega (arith, le)) (omega (arith, lf)))))
            (triple_bind (triple_modify (Within n) (λ _. save) λ s h. w)
              λ _. triple_pure (no_arms, no_stmts)))

  parse_if-Reads :
      (k n : ℕ) → n ≤ k → n ≤ suc f → Reads n (parse_if src expr postfix stmt k) (n - 1)
  unfolding parse_if
  parse_if-Reads k n le lf = triple_bind (expect-Reads n Token.kw_if λ e. cc e) λ t.
      triple_bind (expr-Reads (n - 1) (omega (arith, lf))) λ c.
        triple_bind (parse_block-Reads k (n - 1 - 1) (omega (arith, le)) (omega (arith, lf))) λ b.
          Reads-to (omega arith) (
            then_pure (λ rest. if_chain t.pos (arm_then c b rest.0) rest.1)
              (parse_arms-Reads k (n - 1 - 1 - 1) (omega (arith, le)) (omega (arith, lf))))

  for_body-Reads :
      (k n : ℕ)
      → n ≤ k
      → n ≤ f
      → (make : Stmts → Stmt)
      → Reads n (parse_block src expr postfix stmt k >>= λ b. pure (make b)) n
  for_body-Reads k n le lf make =
      Reads-to (pred_le n)
        (then_pure make (parse_block-Reads k n (omega (arith, le)) (omega (arith, lf))))

  parse_for-Reads :
      (k n : ℕ) → n ≤ k → n ≤ suc f → Reads n (parse_for src expr postfix stmt k) (n - 1)
  unfolding parse_for
  parse_for-Reads k n le lf = triple_bind (expect-Reads n Token.kw_for λ e. cc e) λ t.
      reading cur λ u. reading peek λ v.
        choose (u.kind == Token.ident && v.kind == Token.kw_in)
          (triple_bind (triple_modify (Within (n - 1)) advanced (advanced-Within_same (n - 1))) λ _.
            triple_bind (Reads-to (pred_le (n - 1)) (expect-Reads (n - 1) Token.kw_in λ e. cc e))
              λ _. triple_bind (expr-Reads (n - 1) (omega (arith, lf))) λ iter.
                triple_bind (accept-Reads (n - 1 - 1) Token.kw_with) λ counted.
                  triple_bind
                    (choose counted
                      (Reads-to (pred_le (n - 1 - 1))
                        (then_pure (λ i. i.lit) (expect-Reads (n - 1 - 1) Token.ident λ e. cc e)))
                      (triple_pure []))
                    λ idx. Reads-to (pred_le (n - 1)) (
                      for_body-Reads k (n - 1 - 1) (omega (arith, le)) (omega (arith, lf))
                        λ b. for_loop t.pos u.lit idx (present iter) absent b))
          (triple_bind (expr-Reads (n - 1) (omega (arith, lf))) λ cond. Reads-to (pred_le (n - 1)) (
            for_body-Reads k (n - 1 - 1) (omega (arith, le)) (omega (arith, lf))
              λ b. for_loop t.pos [] [] absent (present cond) b))

  parse_other-Reads : (n : ℕ) → Reads n (parse_other src expr postfix stmt) (n - 1)
  unfolding parse_other
  parse_other-Reads n = reading cur λ t.
      reading find_colon
        λ colon. choose (is_none colon) (refuse t.pos (unexpected t)) (parse_target-Reads src n)

  stmt_at-Reads :
      (n : ℕ) (t : Token.Token) (kind : Token.Kind) (k : ℕ)
      → n ≤ k
      → n ≤ suc f
      → t.kind ≡ kind
      → Triple (At n t) (stmt_at src expr postfix stmt kind k) (λ _. Within (n - 1)) Never
  unfolding stmt_at
  stmt_at-Reads n t Token.kw_if k le lf e = stay (parse_if-Reads k n le lf)
  stmt_at-Reads n t Token.kw_for k le lf e = stay (parse_for-Reads k n le lf)
  stmt_at-Reads n t Token.at_sign k le lf e = stay (
      reading peek λ u.
        choose (u.kind == Token.l_brace) (parse_target-Reads src n)
          (parse_reserved_target-Reads src n))
  stmt_at-Reads n t Token.caret k le lf e = stay (parse_target-Reads src n)
  stmt_at-Reads n t Token.colon k le lf e = stay (parse_target-Reads src n)
  stmt_at-Reads n t Token.ident k le lf e =
      triple_pre (λ s w. (w.0, λ q. cc (sym e ∙ ap (λ u. u.kind) w.1 ∙ q)))
        (parse_named-Begins src expr postfix (suc f) expr-Reads postfix-Reads k n le lf)
  stmt_at-Reads n t _ k le lf e = stay (parse_other-Reads n)

parse_stmt-Reads : (src : Str) (f n : ℕ) → n ≤ f → Reads n (parse_stmt src f) (n - 1)
unfolding parse_stmt
parse_stmt-Reads src zero zero le = nothing_left
parse_stmt-Reads src zero (suc n) le = absurd (omega (arith, le))
parse_stmt-Reads src (suc f) n le = at_cur λ t.
    stmt_at-Reads src (parse_expr (suc f) 0) (parse_postfix (parse_expr (suc f)) (suc f))
      (parse_stmt src f) f (λ m less. parse_expr-Reads (suc f) 0 m less)
      (λ m less.
        parse_postfix-Reads (suc f) (parse_expr (suc f)) (parse_expr-Reads (suc f)) (suc f) m less
          (omega (arith, less)))
      (λ m less. parse_stmt-Reads src f m less) n t t.kind (suc f) le le refl

file_rest-Reads :
    (stmt : Parser Stmt) (f : ℕ)
    → ((n : ℕ) → n ≤ f → Reads n stmt (n - 1))
    → (k n : ℕ) → n ≤ k
    → n ≤ f
    → Reads n (file_rest stmt k) n
unfolding file_rest
file_rest-Reads stmt f h zero zero le lf = nothing_left
file_rest-Reads stmt f h zero (suc n) le lf = absurd (omega (arith, le))
file_rest-Reads stmt f h (suc k) n le lf = triple_bind (skip_separators-Reads n) λ _.
    reading cur λ t. choose (t.kind == Token.eof) (triple_pure no_stmts) (
      triple_bind (h n lf) λ x. Reads-to (pred_le n) (
        then_pure (λ xs. stmt_then x xs)
          (file_rest-Reads stmt f h k (n - 1) (omega (arith, le)) (omega (arith, lf)))))

parse_file-Reads : (src : Str) (f n : ℕ) → n ≤ f → Reads n (parse_file src f) n
unfolding parse_file
parse_file-Reads src f n le =
    file_rest-Reads (parse_stmt src f) f (parse_stmt-Reads src f) f n le le

file_of-returns :
    (src : Str) (n : ℕ) (r : Result Failure Stmts × Toks)
    → Post (λ _. Within n) Never r
    → file_of src r.0 ≢ err out_of_fuel
file_of-returns src n (ok x, s) h q = cc q
file_of-returns src n (err e, s) h q = h (cc q)

parse_file_tokens-returns :
    (src file : Str) (ts : List Token.Token)
    → EndsAtEof src file ts
    → parse_file_tokens src (some ts) ≢ err out_of_fuel
parse_file_tokens-returns src file [] h = absurd h
parse_file_tokens-returns src file (t ∷ ts) h = file_of-returns src (suc (length ts)) _ (
    (parse_file-Reads src (suc (length ts)) (suc (length ts)) (omega arith)).at (toks_from t ts)
      (EndsAtEof-ClosedByEof src file t ts h, omega (arith, count-toks_from t ts)))

-- `Parse` comes to an end on every source: with a file, with a parse error, or with the panic of a
-- slice that is out of the range of the source. As much fuel as the source has tokens is enough for
-- the nesting of statements and expressions and for every loop.
pub parse_lem : (src file : Str) → parse src file ≢ err out_of_fuel
unfolding parse
parse_lem src file =
    let (ts, e, _, ends) = tokenize_lem src file in
    λ q. parse_file_tokens-returns src file ts ends (ap (parse_file_tokens src) (sym e) ∙ q)
