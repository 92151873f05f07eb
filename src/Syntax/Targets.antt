-- ===== src/Syntax/Targets.antt =====
-- internal/parser/parser.go: the ends of statements, bodies, names and targets, and the statements without
-- expressions.
use cgpipe.Prelude.{
  ℕ, suc, ◌+◌, List, [], ◌∷◌, Bool, true, false, not, ◌&&◌, ◌||◌, Option, none, some, nat_eq,
  list_eq, if◌then◌else◌, leb, ◌==◌, length,
}
use cgpipe.Exec.{pure, fail, gets, modify, ◌>>=◌, ◌>>◌}
use cgpipe.Text
use cgpipe.Text.{split_lines, trim_left, Str, codes, trim_space, has_prefix, join}
use cgpipe.Syntax.Token
use cgpipe.Syntax.Token.{kind_eq}
use cgpipe.Syntax.Ast.{Expr, index, call}
use cgpipe.Syntax.Cursor.{
  Toks, last, ahead, cur, out_of_fuel, out_of_range, failed, short_stage, no_colon, bad_target,
  unknown_reserved, Parser, advance, expect,
}
use cgpipe.Syntax.Words.{decl_words, token_width}
use cgpipe.Syntax.Lookahead.{find_colon, scan_decl_end}
use cgpipe.Syntax.Stmt.{Body, Stmt, unset, snippet, stage, target}

abbrev pub is_stmt_end : Token.Kind → Bool
is_stmt_end Token.newline = true
is_stmt_end Token.semi = true
is_stmt_end Token.eof = true
is_stmt_end Token.r_brace = true
is_stmt_end _ = false

unfoldable pub at_stmt_end : Parser Bool
unfolding gets
at_stmt_end = gets λ s. is_stmt_end (cur s).kind

abbrev pub is_assign_op : Token.Kind → Bool
is_assign_op Token.assign = true
is_assign_op Token.q_assign = true
is_assign_op Token.plus_assign = true
is_assign_op _ = false

-- p.src[from:to]
unfoldable pub source : Str → ℕ → ℕ → Parser Str
unfolding pure fail
source src from to =
    if leb from to && leb to (length src) then pure (Text.slice src from to) else fail out_of_range

unfoldable pub parse_body : Parser Body
unfolding ◌>>=◌ pure expect
parse_body = do
  t ← expect Token.l_body
  raw ← expect Token.body
  _ ← expect Token.r_body
  pure (record { pos = t.pos; raw = raw.lit })

-- The loop of dottedName: the end of the last token before the end of the statement, and what is left.
unfoldable pub name_end : ℕ → Toks → Option (ℕ × Toks)
unfolding token_width
name_end end (last t) = if is_stmt_end t.kind then some (end, last t) else none
name_end end (ahead t ts) =
    let more = name_end (t.pos.off + token_width t) ts in
    if is_stmt_end t.kind then some (end, ahead t ts) else more

abbrev pub move_to {ℓ} : {A : Type ℓ} → Option (A × Toks) → Parser A
move_to none = fail out_of_fuel
move_to (some (a, ts)) = modify (λ _. ts) >> pure a

unfoldable pub dotted_name : Str → Parser Str
unfolding ◌>>=◌ pure fail gets modify name_end source trim_space
dotted_name src = do
  t ← gets cur
  end ← gets (name_end t.pos.off) >>= move_to
  text ← source src t.pos.off end
  pure (trim_space text)

-- The loop of parseAssign over the tokens of a name: the first assignment operator or end of line.
unfoldable pub to_assign_op : Toks → Option (Toks × Bool)
to_assign_op (last t) =
    if is_assign_op t.kind
    then some (last t, true)
    else if t.kind == Token.newline || t.kind == Token.eof
    then some (last t, false)
    else none
to_assign_op (ahead t ts) =
    let more = to_assign_op ts in
    if is_assign_op t.kind
    then some (ahead t ts, true)
    else if t.kind == Token.newline || t.kind == Token.eof
    then some (ahead t ts, false)
    else more

abbrev pub op_found : Option (Toks × Bool) → Option (Bool × Toks)
op_found none = none
op_found (some (ts, b)) = some (b, ts)

abbrev pub reserved_targets : List Str
reserved_targets =
    codes "pre"
    ∷ codes "post"
    ∷ codes "setup"
    ∷ codes "teardown"
    ∷ codes "postsubmit"
    ∷ codes "default"
    ∷ []

abbrev pub listed : Str → List Str → Bool
listed s [] = false
listed s (x ∷ xs) = s == x || listed s xs

abbrev pub stage_of : Token.Pos → List Str → Parser Stmt
stage_of p (name ∷ file ∷ args) = pure (stage p name file args)
stage_of p _ = fail (failed p short_stage)

abbrev pub assign_to_index : Token.Pos → (Expr → Parser Stmt) → Expr → Parser Stmt
assign_to_index start next (index p r i) = next (index p r i)
assign_to_index start next _ = fail (failed start bad_target)

abbrev pub is_call : Expr → Bool
is_call (call p r name args _) = true
is_call _ = false

-- Pos of a call.
abbrev pub call_pos : Expr → Token.Pos
call_pos (call p r name args _) = p
call_pos _ = Token.no_pos

unfoldable pub body_if : Bool → Parser (Option Body)
unfolding ◌>>=◌ pure parse_body
body_if b = if b then (parse_body >>= λ body. pure (some body)) else pure none

abbrev pub is_none : Option ℕ → Bool
is_none none = true
is_none (some n) = false

unfoldable pub parse_snippet : Parser Stmt
unfolding ◌>>=◌ pure advance expect parse_body
parse_snippet = do
  t ← advance
  name ← expect Token.ident
  body ← parse_body
  pure (snippet t.pos name.lit body.raw)

-- The statements of the source `src` without expressions.
module _ (src : Str) where
  unfoldable pub parse_unset : Parser Stmt
  unfolding ◌>>=◌ pure advance dotted_name
  parse_unset = do t ← advance; name ← dotted_name src; pure (unset t.pos name)

  -- The words from an offset to the end of the declaration, to which the cursor moves.
  unfoldable pub words_to_end : ℕ → Parser (List Str × Bool)
  unfolding ◌>>=◌ pure gets modify scan_decl_end source decl_words
  words_to_end from = do
    end ← gets scan_decl_end
    text ← source src from (cur end.0).pos.off
    modify (λ _. end.0)
    pure (decl_words text, end.1)

  unfoldable pub parse_stage : Parser Stmt
  unfolding ◌>>=◌ pure fail advance gets words_to_end
  parse_stage = do
    t ← advance
    start ← gets cur
    words ← words_to_end start.pos.off
    stage_of t.pos words.0

  unfoldable pub parse_reserved_target : Parser Stmt
  unfolding ◌>>=◌ pure fail gets expect words_to_end body_if
  parse_reserved_target =
      let with_inputs : Token.Pos → Str → ℕ → Parser Stmt = λ p name colon. do
        words ← words_to_end (suc colon)
        body ← body_if words.1
        pure (target p name [] words.0 body)
      in let without_inputs : Token.Pos → Str → Token.Kind → Parser Stmt =
          λ p name kind. do body ← body_if (kind == Token.l_body); pure (target p name [] [] body)
        in do
          t ← expect Token.at_sign
          name ← expect Token.ident
          u ← gets cur
          if not (listed name.lit reserved_targets)
              then fail (failed name.pos (unknown_reserved name.lit))
              else if u.kind == Token.colon
              then with_inputs t.pos name.lit u.pos.off
              else without_inputs t.pos name.lit u.kind

  abbrev pub target_with : Token.Token → Option ℕ → Parser Stmt
  target_with t none = fail (failed t.pos no_colon)
  target_with t (some colon) = do
    outputs ← source src t.pos.off colon
    words ← words_to_end (suc colon)
    body ← body_if words.1
    pure (target t.pos [] (decl_words outputs) words.0 body)

  unfoldable pub parse_target : Parser Stmt
  unfolding ◌>>=◌ gets pure fail source decl_words find_colon words_to_end body_if
  parse_target = do t ← gets cur; colon ← gets find_colon; target_with t colon
