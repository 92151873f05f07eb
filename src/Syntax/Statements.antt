-- ===== src/Syntax/Statements.antt =====
-- internal/parser/parser.go: blocks, compound statements and files. Each nested statement, and each
-- turn of a loop, takes fuel.
mod Total
mod Tests
use cgpipe.Prelude.{
  ℕ, zero, suc, ◌+◌, ◌-◌, ◌*◌, List, [], ◌∷◌, ◌++◌, Bool, true, false, not, ◌&&◌, ◌||◌, Option,
  none, some, nat_eq, list_eq, if◌then◌else◌, leb, ◌==◌, length,
}
use cgpipe.Exec.{Result, ok, err, pure, fail, gets, modify, ◌>>=◌, ◌>>◌}
use cgpipe.Text
use cgpipe.Text.{split_lines, trim_left, Str, codes, trim_space, has_prefix, join}
use cgpipe.Syntax.Token
use cgpipe.Syntax.Token.{kind_eq}
use cgpipe.Syntax.Lexer.{tokenize}
use cgpipe.Syntax.Ast.{Expr, index, call, Operand, absent, present, Exprs, no_exprs, expr_then}
use cgpipe.Syntax.Cursor.{
  Toks, last, ahead, cur, advanced, peek, Failure, out_of_fuel, out_of_range, failed, unexpected,
  unclosed_block, short_stage, no_assignment, no_colon, bad_target, unknown_reserved, Parser,
  accept, advance, expect, skip_separators,
}
use cgpipe.Syntax.Parser.{parse_expr, parse_postfix, toks_from}
use cgpipe.Syntax.Words.{decl_words, token_width}
use cgpipe.Syntax.Lookahead.{line_is_assignment, lhs_has_index, find_colon, scan_decl_end}
use cgpipe.Syntax.Stmt.{
  Body, Stmt, assign, expr_stmt, include, eval_stmt, sleep, print, exit_with, unset, if_chain,
  for_loop, snippet, export, var_decl, stage, dumpvars, showhelp, target, Stmts, no_stmts,
  stmt_then, Arms, no_arms, arm_then, File,
}
use cgpipe.Syntax.Targets.{is_none, parse_target, parse_reserved_target}
use cgpipe.Syntax.Simple.{parse_named}

-- The statements of the source `src`, with expressions read by `expr`, the left side of an
-- assignment by `postfix`, and nested statements by `stmt`.
module _ (src : Str) (expr postfix : Parser Expr) (stmt : Parser Stmt) where
  -- The loop of parseBlock, behind the brace.
  unfoldable pub block_rest : ℕ → Parser Stmts
  unfolding ◌>>=◌ pure fail gets modify skip_separators
  block_rest zero = fail out_of_fuel
  block_rest (suc fuel) =
      let again = block_rest fuel in
      do
        skip_separators
        t ← gets cur
        if t.kind == Token.r_brace
            then (modify advanced >> pure no_stmts)
            else if t.kind == Token.eof
            then fail (failed t.pos unclosed_block)
            else (stmt >>= λ x. again >>= λ xs. pure (stmt_then x xs))

  unfoldable pub parse_block : ℕ → Parser Stmts
  unfolding ◌>>=◌ expect block_rest
  parse_block fuel = do _ ← expect Token.l_brace; block_rest fuel

  -- The loop of parseIf over `elif` and `else`.
  unfoldable pub parse_arms : ℕ → Parser (Arms × Stmts)
  unfolding ◌>>=◌ pure fail gets modify skip_separators parse_block
  parse_arms zero = fail out_of_fuel
  parse_arms (suc fuel) =
      let again = parse_arms fuel in
      let arm : Parser (Arms × Stmts) = do
        modify advanced
        c ← expr
        b ← parse_block (suc fuel)
        rest ← again
        pure (arm_then c b rest.0, rest.1)
      in let otherwise : Parser (Arms × Stmts) = do
        modify advanced
        b ← parse_block (suc fuel)
        pure (no_arms, b)
        in do
          save ← gets (λ s. s)
          skip_separators
          t ← gets cur
          if t.kind == Token.kw_elif
              then arm
              else if t.kind == Token.kw_else
              then otherwise
              else (modify (λ _. save) >> pure (no_arms, no_stmts))

  unfoldable pub parse_if : ℕ → Parser Stmt
  unfolding ◌>>=◌ pure expect parse_block parse_arms
  parse_if fuel = do
    t ← expect Token.kw_if
    c ← expr
    b ← parse_block fuel
    rest ← parse_arms fuel
    pure (if_chain t.pos (arm_then c b rest.0) rest.1)

  unfoldable pub parse_for : ℕ → Parser Stmt
  unfolding ◌>>=◌ pure gets modify expect accept parse_block
  parse_for fuel =
      let over : Token.Pos → Str → Parser Stmt = λ p var. do
        modify advanced
        _ ← expect Token.kw_in
        iter ← expr
        counted ← accept Token.kw_with
        idx ← if counted then (expect Token.ident >>= λ i. pure i.lit) else pure []
        body ← parse_block fuel
        pure (for_loop p var idx (present iter) absent body)
      in let while : Token.Pos → Parser Stmt = λ p. do
        cond ← expr
        body ← parse_block fuel
        pure (for_loop p [] [] absent (present cond) body)
        in do
          t ← expect Token.kw_for
          u ← gets cur
          v ← gets peek
          if u.kind == Token.ident && v.kind == Token.kw_in then over t.pos u.lit else while t.pos

  -- A line that starts with a token of another kind.
  unfoldable pub parse_other : Parser Stmt
  unfolding ◌>>=◌ gets fail find_colon parse_target
  parse_other = do
    t ← gets cur
    colon ← gets find_colon
    if is_none colon then fail (failed t.pos (unexpected t)) else parse_target src

  unfoldable pub stmt_at : Token.Kind → ℕ → Parser Stmt
  unfolding ◌>>=◌ gets parse_if parse_for parse_reserved_target parse_target parse_named parse_other
  stmt_at Token.kw_if fuel = parse_if fuel
  stmt_at Token.kw_for fuel = parse_for fuel
  stmt_at Token.at_sign fuel = do
    u ← gets peek
    if u.kind == Token.l_brace then parse_target src else parse_reserved_target src
  stmt_at Token.caret fuel = parse_target src
  stmt_at Token.colon fuel = parse_target src
  stmt_at Token.ident fuel = parse_named src expr postfix fuel
  stmt_at _ fuel = parse_other

-- parseStmt
unfoldable pub parse_stmt : Str → ℕ → Parser Stmt
unfolding ◌>>=◌ gets fail parse_expr parse_postfix stmt_at
parse_stmt src zero = fail out_of_fuel
parse_stmt src (suc fuel) =
    let nested = parse_stmt src fuel in
    do
      t ← gets cur
      stmt_at src (parse_expr (suc fuel) 0) (parse_postfix (parse_expr (suc fuel)) (suc fuel))
          nested t.kind (suc fuel)

-- The loop of parseFile.
unfoldable pub file_rest : Parser Stmt → ℕ → Parser Stmts
unfolding ◌>>=◌ pure fail gets skip_separators
file_rest stmt zero = fail out_of_fuel
file_rest stmt (suc fuel) =
    let again = file_rest stmt fuel in
    do
      skip_separators
      t ← gets cur
      if t.kind == Token.eof
          then pure no_stmts
          else (stmt >>= λ x. again >>= λ xs. pure (stmt_then x xs))

unfoldable pub parse_file : Str → ℕ → Parser Stmts
unfolding parse_stmt file_rest
parse_file src fuel = file_rest (parse_stmt src fuel) fuel

-- extractHelp
abbrev without_space : Str → Str
without_space [] = []
without_space (c ∷ s) = if c == 32 then s else c ∷ s

abbrev help_line : Str → Option Str
help_line [] = none
help_line (c ∷ s) = if c == b'#' then some (without_space s) else none

abbrev help_lines : List Str → List Str
help_lines [] = []
help_lines (l ∷ ls) = elim (help_line (trim_left l)) [ none ↦ [] | some h ↦ h ∷ help_lines ls ]

abbrev behind_shebang : List Str → List Str
behind_shebang [] = []
behind_shebang (l ∷ ls) = if has_prefix l (codes "#!") then ls else l ∷ ls

unfoldable pub extract_help : Str → Str
unfolding split_lines has_prefix join
extract_help src = join (help_lines (behind_shebang (split_lines src))) (codes "\n")

abbrev pub file_of : Str → Result Failure Stmts → Result Failure File
file_of src (ok stmts) = ok (record { stmts = stmts; help = extract_help src })
file_of src (err e) = err e

abbrev pub parse_file_tokens : Str → Option (List Token.Token) → Result Failure File
parse_file_tokens src none = err out_of_fuel
parse_file_tokens src (some []) = err out_of_fuel
parse_file_tokens src (some (t ∷ ts)) =
    file_of src (parse_file src (suc (length ts)) (toks_from t ts)).0

-- Parse
unfoldable pub parse : Str → Str → Result Failure File
unfolding tokenize parse_file extract_help
parse src file = parse_file_tokens src (tokenize src file)
