-- ===== src/Syntax/Simple.antt =====
-- internal/parser/parser.go: the statements that have expressions but no nested statements. Each turn of
-- a loop takes fuel.
pub mod Scans
pub mod Total
use cgpipe.Prelude.{
  ℕ, zero, suc, ◌+◌, ◌-◌, ◌*◌, List, [], ◌∷◌, ◌++◌, Bool, true, false, not, ◌&&◌, ◌||◌, Option,
  none, some, nat_eq, list_eq, if◌then◌else◌, leb, ◌==◌, length,
}
use cgpipe.Exec.{Result, ok, err, pure, fail, gets, modify, ◌>>=◌, ◌>>◌}
use cgpipe.Text
use cgpipe.Text.{split_lines, trim_left, Str, codes, trim_space, has_prefix, join}
use cgpipe.Syntax.Token
use cgpipe.Syntax.Token.{kind_eq}
use cgpipe.Syntax.Lexer.{tokenize}
use cgpipe.Syntax.Ast.{Expr, index, call, Operand, absent, present, Exprs, no_exprs, expr_then}
use cgpipe.Syntax.Cursor.{
  Toks, last, ahead, cur, advanced, peek, Failure, out_of_fuel, out_of_range, failed, unexpected,
  unclosed_block, short_stage, no_assignment, no_colon, bad_target, unknown_reserved, Parser,
  accept, advance, expect, skip_separators,
}
use cgpipe.Syntax.Parser.{parse_expr, parse_postfix, toks_from}
use cgpipe.Syntax.Words.{decl_words, token_width}
use cgpipe.Syntax.Lookahead.{line_is_assignment, lhs_has_index, find_colon, scan_decl_end}
use cgpipe.Syntax.Stmt.{
  Body, Stmt, assign, expr_stmt, include, eval_stmt, sleep, print, exit_with, unset, if_chain,
  for_loop, snippet, export, var_decl, stage, dumpvars, showhelp, target, Stmts, no_stmts,
  stmt_then, Arms, no_arms, arm_then, File,
}
use cgpipe.Syntax.Targets.{
  is_stmt_end, at_stmt_end, is_assign_op, source, parse_body, name_end, move_to, dotted_name,
  to_assign_op, op_found, reserved_targets, listed, stage_of, assign_to_index, is_call, call_pos,
  body_if, is_none, parse_snippet, parse_unset, words_to_end, parse_stage, parse_reserved_target,
  target_with, parse_target,
}

-- The statements with expressions, which `expr` reads; `postfix` reads the left side of an assignment.
module _ (src : Str) (expr postfix : Parser Expr) where
  unfoldable pub parse_assign_index : Token.Pos → Parser Stmt
  unfolding ◌>>=◌ pure fail gets modify
  parse_assign_index start =
      let with_target : Expr → Parser Stmt = λ idx. do
        t ← gets cur
        if is_assign_op t.kind
            then (modify advanced >> expr >>= λ e. pure (assign start [] (present idx) t.kind e))
            else fail (failed t.pos no_assignment)
      in postfix >>= assign_to_index start with_target

  unfoldable pub parse_assign_name : Token.Pos → Parser Stmt
  unfolding ◌>>=◌ pure fail gets modify to_assign_op source trim_space
  parse_assign_name start =
      let value : Token.Token → Parser Stmt = λ t. do
        name ← source src start.off t.pos.off
        modify advanced
        e ← expr
        pure (assign start (trim_space name) absent t.kind e)
      in do
        found ← gets (λ s. op_found (to_assign_op s)) >>= move_to
        t ← gets cur
        if found then value t else fail (failed t.pos no_assignment)

  unfoldable pub parse_assign : Parser Stmt
  unfolding ◌>>=◌ gets lhs_has_index parse_assign_index parse_assign_name
  parse_assign = do
    t ← gets cur
    b ← gets lhs_has_index
    if b then parse_assign_index t.pos else parse_assign_name t.pos

  unfoldable pub print_args : ℕ → Parser Exprs
  unfolding ◌>>=◌ pure fail accept
  print_args zero = fail out_of_fuel
  print_args (suc fuel) =
      let again = print_args fuel in
      do
        e ← expr
        more ← accept Token.comma
        es ← if more then again else pure no_exprs
        pure (expr_then e es)

  unfoldable pub parse_print : ℕ → Parser Stmt
  unfolding ◌>>=◌ pure advance at_stmt_end print_args
  parse_print fuel = do
    t ← advance
    done ← at_stmt_end
    es ← if done then pure no_exprs else print_args fuel
    pure (print t.pos es)

  unfoldable pub parse_exit : Parser Stmt
  unfolding ◌>>=◌ pure advance at_stmt_end
  parse_exit = do
    t ← advance
    done ← at_stmt_end
    code ← if done then pure absent else (expr >>= λ e. pure (present e))
    pure (exit_with t.pos code)

  -- parseInclude, parseEvalStmt and parseSleep
  unfoldable pub parse_operand : (Token.Pos → Expr → Stmt) → Parser Stmt
  unfolding ◌>>=◌ pure advance
  parse_operand make = do t ← advance; e ← expr; pure (make t.pos e)

  unfoldable pub parse_export : Parser Stmt
  unfolding ◌>>=◌ pure advance expect
  parse_export = do
    t ← advance
    name ← expect Token.ident
    _ ← expect Token.assign
    e ← expr
    pure (export t.pos name.lit e)

  unfoldable pub parse_var : Parser Stmt
  unfolding ◌>>=◌ pure advance expect accept
  parse_var = do
    t ← advance
    name ← expect Token.ident
    init ← accept Token.assign
    value ← if init then (expr >>= λ e. pure (present e)) else pure absent
    pure (var_decl t.pos name.lit value)

  -- A call as a statement; the cursor goes back where the line is something else.
  unfoldable pub parse_call_or_target : Parser Stmt
  unfolding ◌>>=◌ gets pure modify at_stmt_end parse_target
  parse_call_or_target = do
    save ← gets (λ s. s)
    e ← expr
    done ← at_stmt_end
    if is_call e && done
        then pure (expr_stmt (call_pos e) e)
        else (modify (λ _. save) >> parse_target src)

  -- The statements that a name may begin, in the order of the tests.
  unfoldable pub parse_named : ℕ → Parser Stmt
  unfolding ◌>>=◌ gets pure advance parse_export parse_var parse_stage line_is_assignment
      parse_assign parse_print parse_exit parse_unset parse_operand parse_snippet find_colon
      parse_call_or_target parse_target
  parse_named fuel = do
    t ← gets cur
    assigns ← gets line_is_assignment
    colon ← gets find_colon
    if t.lit == codes "export"
        then parse_export
        else if t.lit == codes "var"
        then parse_var
        else if t.lit == codes "stage"
        then parse_stage src
        else if assigns
        then parse_assign
        else if t.lit == codes "print"
        then parse_print fuel
        else if t.lit == codes "exit"
        then parse_exit
        else if t.lit == codes "unset"
        then parse_unset src
        else if t.lit == codes "include"
        then parse_operand include
        else if t.lit == codes "snippet"
        then parse_snippet
        else if t.lit == codes "eval"
        then parse_operand eval_stmt
        else if t.lit == codes "sleep"
        then parse_operand sleep
        else if t.lit == codes "dumpvars"
        then (advance >>= λ u. pure (dumpvars u.pos))
        else if t.lit == codes "showhelp"
        then (advance >>= λ u. pure (showhelp u.pos))
        else if is_none colon
        then parse_call_or_target
        else parse_target src
