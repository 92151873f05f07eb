-- ===== src/Syntax/Simple/Total.antt =====
-- Every statement without nested statements reads a token.
use cgpipe.Prelude.{
  ℕ, zero, suc, ◌-◌, ◌≤◌, ◌&&◌, List, [], ◌∷◌, not, Option, none, some, nat_eq, list_eq, ◌==◌, ◌≡◌,
  refl, arith,
}
use cgpipe.Text.{Str, codes, trim_space}
use cgpipe.Exec.{pure, ◌>>=◌}
use cgpipe.Exec.Triple.{Triple, triple_pure, triple_gets, triple_pre, triple_bind, triple_modify}
use cgpipe.Syntax.Token
use cgpipe.Syntax.Token.{kind_eq}
use cgpipe.Syntax.Ast.{Expr, index, no_exprs, expr_then, absent, present}
use cgpipe.Syntax.Cursor.{
  Toks, cur, advanced, short_stage, no_assignment, no_colon, bad_target, unknown_reserved, Parser,
}
use cgpipe.Syntax.Parser.Reads.{
  Within, Never, Reads, advanced-Within_same, Reads-to, nothing_left, refuse, expect-Reads,
  accept-Reads, pred_le,
}
use cgpipe.Syntax.Words.{decl_words}
use cgpipe.Syntax.Lookahead.{line_is_assignment, lhs_has_index, find_colon}
use cgpipe.Syntax.Stmt.{
  Stmt, assign, expr_stmt, include, eval_stmt, sleep, print, exit_with, unset, snippet, export,
  var_decl, stage, dumpvars, showhelp, target,
}
use cgpipe.Syntax.Targets.{
  is_assign_op, reserved_targets, listed, stage_of, assign_to_index, is_call, call_pos, is_none,
  parse_snippet, parse_unset, parse_stage, parse_reserved_target, target_with, parse_target,
}
use cgpipe.Syntax.Simple.{
  parse_assign_index, parse_assign_name, parse_assign, print_args, parse_print, parse_exit,
  parse_operand, parse_export, parse_var, parse_call_or_target, parse_named,
}
use cgpipe.Syntax.Simple.Scans.{
  Live, reading, saving, choose, deny, source-keeps, advance-Live, at_stmt_end-Reads,
  dotted_name-Reads, to_assign_op-Reads, parse_body-Reads, body_if-Reads, words_to_end-Reads,
  words_to_end-Reads_colon,
}

-- A statement that a live token begins.
abbrev pub Begins : {A : Type 0} → ℕ → Parser A → Type 0
Begins n m = Triple (Live n) m (λ _. Within (n - 1)) Never

pub any_token : {A : Type 0} {m : Parser A} (n : ℕ) → Reads n m (n - 1) → Begins n m
any_token n h = triple_pre (λ s w. w.0) h

pub then_pure :
    {A B : Type 0} {P Q : Toks → Type 0} {m : Parser A} (f : A → B)
    → Triple P m (λ _. Q) Never
    → Triple P (m >>= λ a. pure (f a)) (λ _. Q) Never
then_pure f h = triple_bind h λ a. triple_pure (f a)

parse_snippet-Begins : (n : ℕ) → Begins n parse_snippet
unfolding parse_snippet
parse_snippet-Begins n = triple_bind (advance-Live n) λ t.
    triple_bind (Reads-to (pred_le (n - 1)) (expect-Reads (n - 1) Token.ident λ e. cc e))
      λ name. then_pure (λ body. snippet t.pos name.lit body.raw) (parse_body-Reads (n - 1))

parse_unset-Begins : (src : Str) (n : ℕ) → Begins n (parse_unset src)
unfolding parse_unset
parse_unset-Begins src n =
    triple_bind (advance-Live n)
      λ t. then_pure (λ name. unset t.pos name) (dotted_name-Reads src (n - 1))

stage_of-Reads : (n : ℕ) (p : Token.Pos) (ws : List Str) → Reads n (stage_of p ws) n
stage_of-Reads n p [] = refuse p short_stage
stage_of-Reads n p (w ∷ []) = refuse p short_stage
stage_of-Reads n p (v ∷ w ∷ ws) = triple_pure (stage p v w ws)

parse_stage-Begins : (src : Str) (n : ℕ) → Begins n (parse_stage src)
unfolding parse_stage
parse_stage-Begins src n = triple_bind (advance-Live n) λ t. reading cur λ start.
    triple_bind (words_to_end-Reads src start.pos.off (n - 1))
      λ words. stage_of-Reads (n - 1) t.pos words.0

pub parse_reserved_target-Reads : (src : Str) (n : ℕ) → Reads n (parse_reserved_target src) (n - 1)
unfolding parse_reserved_target
parse_reserved_target-Reads src n = triple_bind (expect-Reads n Token.at_sign λ e. cc e) λ t.
    triple_bind (Reads-to (pred_le (n - 1)) (expect-Reads (n - 1) Token.ident λ e. cc e)) λ name.
      reading cur λ u.
        choose (not (listed name.lit reserved_targets))
          (refuse name.pos (unknown_reserved name.lit))
          (choose (u.kind == Token.colon)
            (triple_bind (words_to_end-Reads src (suc u.pos.off) (n - 1)) λ words.
              then_pure (λ body. target t.pos name.lit [] words.0 body)
                (body_if-Reads (n - 1) words.1))
            (then_pure (λ body. target t.pos name.lit [] [] body)
              (body_if-Reads (n - 1) (u.kind == Token.l_body))))

target_with-Reads :
    (src : Str) (n : ℕ) (t : Token.Token) (x : Option ℕ)
    → Triple
        (λ s. Within n s × (find_colon s ≡ x))
        (target_with src t x)
        (λ _. Within (n - 1))
        Never
target_with-Reads src n t none = deny t.pos no_colon
target_with-Reads src n t (some c) = triple_bind (source-keeps src t.pos.off c) λ outputs.
    triple_bind (words_to_end-Reads_colon src (suc c) n c) λ words.
      then_pure (λ body. target t.pos [] (decl_words outputs) words.0 body)
        (body_if-Reads (n - 1) words.1)

pub parse_target-Reads : (src : Str) (n : ℕ) → Reads n (parse_target src) (n - 1)
unfolding parse_target
parse_target-Reads src n = reading cur λ t.
    triple_bind
      (triple_gets {Q = λ x s. Within n s × (find_colon s ≡ x)} find_colon λ s h. (h, refl))
      (target_with-Reads src n t)

assign_to_index-Reads :
    (n : ℕ) (start : Token.Pos) (next : Expr → Parser Stmt) (x : Expr)
    → ((y : Expr) → Reads n (next y) n)
    → Reads n (assign_to_index start next x) n
assign_to_index-Reads n start next (index p r i) h = h (index p r i)
assign_to_index-Reads n start next _ h = refuse start bad_target

module _ (src : Str) (expr postfix : Parser Expr) (f : ℕ)
    (expr-Reads : (n : ℕ) → n ≤ f → Reads n expr (n - 1))
    (postfix-Reads : (n : ℕ) → n ≤ f → Reads n postfix (n - 1)) where
  -- The expression behind some tokens.
  later : (n : ℕ) → n - 1 ≤ f → Reads (n - 1) expr (n - 1)
  later n le = Reads-to (pred_le (n - 1)) (expr-Reads (n - 1) le)

  parse_assign_index-Reads :
      (p : Token.Pos) (n : ℕ) → n ≤ f → Reads n (parse_assign_index src expr postfix p) (n - 1)
  unfolding parse_assign_index
  parse_assign_index-Reads p n le = triple_bind (postfix-Reads n le) λ x.
      assign_to_index-Reads (n - 1) p _ x λ idx. reading cur λ t.
        choose (is_assign_op t.kind)
          (triple_bind (triple_modify (Within (n - 1)) advanced (advanced-Within_same (n - 1)))
            λ _. then_pure (λ e. assign p [] (present idx) t.kind e) (later n (omega (arith, le))))
          (refuse t.pos no_assignment)

  parse_assign_name-Reads :
      (p : Token.Pos) (n : ℕ) → n ≤ f → Reads n (parse_assign_name src expr postfix p) (n - 1)
  unfolding parse_assign_name
  parse_assign_name-Reads p n le = triple_bind (to_assign_op-Reads n) λ found. reading cur λ t.
      choose found
        (triple_bind (source-keeps src p.off t.pos.off) λ name.
          triple_bind (triple_modify (Within n) advanced (advanced-Within_same n))
            λ _. then_pure (λ e. assign p (trim_space name) absent t.kind e) (expr-Reads n le))
        (refuse t.pos no_assignment)

  parse_assign-Reads : (n : ℕ) → n ≤ f → Reads n (parse_assign src expr postfix) (n - 1)
  unfolding parse_assign
  parse_assign-Reads n le = reading cur λ t.
      reading lhs_has_index
        λ b. choose b (parse_assign_index-Reads t.pos n le) (parse_assign_name-Reads t.pos n le)

  print_args-Reads : (k n : ℕ) → n ≤ k → n ≤ f → Reads n (print_args src expr postfix k) (n - 1)
  unfolding print_args
  print_args-Reads zero zero le lf = nothing_left
  print_args-Reads zero (suc n) le lf = absurd (omega (arith, le))
  print_args-Reads (suc k) n le lf = triple_bind (expr-Reads n lf) λ e.
      triple_bind (accept-Reads (n - 1) Token.comma) λ more.
        then_pure (λ es. expr_then e es)
          (choose more
            (Reads-to (pred_le (n - 1))
              (print_args-Reads k (n - 1) (omega (arith, le)) (omega (arith, lf))))
            (triple_pure no_exprs))

  parse_print-Begins : (k n : ℕ) → n ≤ k → n ≤ f → Begins n (parse_print src expr postfix k)
  unfolding parse_print
  parse_print-Begins k n le lf = triple_bind (advance-Live n) λ t.
      triple_bind (at_stmt_end-Reads (n - 1)) λ done.
        then_pure (λ es. print t.pos es)
          (choose done (triple_pure no_exprs) (
            Reads-to (pred_le (n - 1))
              (print_args-Reads k (n - 1) (omega (arith, le)) (omega (arith, lf)))))

  parse_exit-Begins : (n : ℕ) → n ≤ f → Begins n (parse_exit src expr postfix)
  unfolding parse_exit
  parse_exit-Begins n le = triple_bind (advance-Live n) λ t.
      triple_bind (at_stmt_end-Reads (n - 1)) λ done.
        then_pure (λ code. exit_with t.pos code)
          (choose done (triple_pure absent)
            (then_pure (λ e. present e) (later n (omega (arith, le)))))

  parse_operand-Begins :
      (make : Token.Pos → Expr → Stmt) (n : ℕ)
      → n ≤ f
      → Begins n (parse_operand src expr postfix make)
  unfolding parse_operand
  parse_operand-Begins make n le =
      triple_bind (advance-Live n) λ t. then_pure (λ e. make t.pos e) (later n (omega (arith, le)))

  parse_export-Begins : (n : ℕ) → n ≤ f → Begins n (parse_export src expr postfix)
  unfolding parse_export
  parse_export-Begins n le = triple_bind (advance-Live n) λ t.
      triple_bind (Reads-to (pred_le (n - 1)) (expect-Reads (n - 1) Token.ident λ e. cc e)) λ name.
        triple_bind (Reads-to (pred_le (n - 1)) (expect-Reads (n - 1) Token.assign λ e. cc e))
          λ _. then_pure (λ e. export t.pos name.lit e) (later n (omega (arith, le)))

  parse_var-Begins : (n : ℕ) → n ≤ f → Begins n (parse_var src expr postfix)
  unfolding parse_var
  parse_var-Begins n le = triple_bind (advance-Live n) λ t.
      triple_bind (Reads-to (pred_le (n - 1)) (expect-Reads (n - 1) Token.ident λ e. cc e)) λ name.
        triple_bind (accept-Reads (n - 1) Token.assign) λ init.
          then_pure (λ value. var_decl t.pos name.lit value)
            (choose init (then_pure (λ e. present e) (later n (omega (arith, le))))
              (triple_pure absent))

  parse_call_or_target-Reads :
      (n : ℕ) → n ≤ f → Reads n (parse_call_or_target src expr postfix) (n - 1)
  unfolding parse_call_or_target
  parse_call_or_target-Reads n le = saving n (n - 1) λ save w. triple_bind (expr-Reads n le) λ e.
      triple_bind (at_stmt_end-Reads (n - 1)) λ done.
        choose (is_call e && done) (triple_pure (expr_stmt (call_pos e) e)) (
          triple_bind (triple_modify (Within n) (λ _. save) λ s h. w) λ _. parse_target-Reads src n)

  pub parse_named-Begins : (k n : ℕ) → n ≤ k → n ≤ f → Begins n (parse_named src expr postfix k)
  unfolding parse_named
  parse_named-Begins k n le lf = reading cur λ t. reading line_is_assignment λ assigns.
      reading find_colon λ colon. choose (t.lit == codes "export") (parse_export-Begins n lf) (
        choose (t.lit == codes "var") (parse_var-Begins n lf) (
          choose (t.lit == codes "stage") (parse_stage-Begins src n) (
            choose assigns (any_token n (parse_assign-Reads n lf)) (
              choose (t.lit == codes "print") (parse_print-Begins k n le lf) (
                choose (t.lit == codes "exit") (parse_exit-Begins n lf) (
                  choose (t.lit == codes "unset") (parse_unset-Begins src n) (
                    choose (t.lit == codes "include") (parse_operand-Begins include n lf) (
                      choose (t.lit == codes "snippet") (parse_snippet-Begins n) (
                        choose (t.lit == codes "eval") (parse_operand-Begins eval_stmt n lf) (
                          choose (t.lit == codes "sleep") (parse_operand-Begins sleep n lf) (
                            choose (t.lit == codes "dumpvars")
                              (then_pure (λ u. dumpvars u.pos) (advance-Live n))
                              (choose (t.lit == codes "showhelp")
                                (then_pure (λ u. showhelp u.pos) (advance-Live n))
                                (choose (is_none colon)
                                  (any_token n (parse_call_or_target-Reads n lf))
                                  (any_token n (parse_target-Reads src n)))))))))))))))
