-- ===== src/Eval/Body.antt =====
-- internal/eval/body.go: a body is split into directives and shell lines, and its lines that start with
-- `%` are parsed into blocks. Each call for a block, and each branch of an `if`, takes fuel.
mod Lines
mod Blocks
mod Tests
use cgpipe.Prelude.{
  ℕ, zero, suc, ◌+◌, ◌-◌, List, [], ◌∷◌, Bool, true, false, not, ◌||◌, Option, none, some, nat_eq,
  list_eq, if◌then◌else◌, leb, ◌==◌, length, take, drop,
}
use cgpipe.Exec.{Result, ok, err, Exec, pure, fail, gets, modify, ◌>>=◌, ◌>>◌}
use cgpipe.Text.{split_lines, trim_left, Str, codes, has_prefix, has_suffix, join, trim_space}
use cgpipe.Syntax.Ast.{Expr}
use cgpipe.Syntax.Cursor.{Failure}
use cgpipe.Syntax.Parser.{parse_text}

-- The lines before the first `--`, and those behind it; without one, all lines are behind.
abbrev split_at_dashes : List Str → Option (List Str × List Str)
split_at_dashes [] = none
split_at_dashes (l ∷ ls) = elim (trim_space l == codes "--") [
  | true ↦ some ([], ls)
  | false ↦ elim (split_at_dashes ls) [
    | none ↦ none
    | some (before, behind) ↦ some (l ∷ before, behind)
  ]
]

unfoldable pub directives_and_shell : Str → List Str × List Str
unfolding split_lines trim_space
directives_and_shell raw = elim (split_at_dashes (split_lines raw)) [
  | none ↦ ([], split_lines raw)
  | some parts ↦ parts
]

unfoldable pub is_ctrl_line : Str → Bool
unfolding has_prefix
is_ctrl_line line = has_prefix (trim_left line) (codes "%")

unfoldable pub ctrl_content : Str → Str
unfolding trim_space
ctrl_content line = trim_space (drop 1 (trim_left line))

-- bracketDelta, as the number of brackets that open and the number of those that close; the flag is
-- set inside of a string.
abbrev opening : ℕ × ℕ → ℕ × ℕ
opening (o, c) = (suc o, c)

abbrev closing : ℕ × ℕ → ℕ × ℕ
closing (o, c) = (o, suc c)

unfoldable pub brackets : Bool → Str → ℕ × ℕ
brackets in_str [] = (0, 0)
brackets true (c ∷ []) = (0, 0)
brackets true (c ∷ d ∷ s) =
    let escaped = brackets true s in
    let ended = brackets false (d ∷ s) in
    let inside = brackets true (d ∷ s) in
    if c == 92 then escaped else if c == b'"' then ended else inside
brackets false (c ∷ s) =
    let quoted = brackets true s in
    let plain = brackets false s in
    if c == b'"'
    then quoted
    else if c == b'#'
    then (0, 0)
    else if c == b'(' || c == b'['
    then opening plain
    else if c == b')' || c == b']'
    then closing plain
    else plain

mutual
  pub data Node : Type 0 where
    shell_line statement : Str → Node
    for_in : Str → Expr → Nodes → Node
    while_loop : Expr → Nodes → Node
    branching : Branches → Nodes → Node

  pub data Nodes : Type 0 where
    no_nodes : Nodes
    node_then : Node → Nodes → Nodes

  -- The conditions of an `if` and their blocks.
  pub data Branches : Type 0 where
    no_branches : Branches
    branch_then : Expr → Nodes → Branches → Branches

pub data BodyError : Type 0 where
  out_of_turns unclosed_for unclosed_if unclosed_else : BodyError
  unexpected_closer : Str → BodyError
  in_expression : Failure → BodyError

-- The state is the lines from the index on.
abbrev pub BlockParser {ℓ} : Type ℓ → Type ℓ
BlockParser A = Exec (List Str) BodyError A

abbrev pub next_line_of : List Str → List Str
next_line_of [] = []
next_line_of (l ∷ ls) = ls

abbrev pub consume : BlockParser (Unit {0})
consume = modify next_line_of

abbrev pub parsed_header : Result Failure Expr → BlockParser Expr
parsed_header (ok e) = pure e
parsed_header (err f) = fail (in_expression f)

-- strings.TrimSpace(strings.TrimSuffix(strings.TrimSpace(s), "{"))
unfoldable pub without_brace : Str → Str
unfolding trim_space has_suffix
without_brace s =
    let t = trim_space s in
    trim_space (if has_suffix t (codes "{") then take (length t - 1) t else t)

unfoldable pub parse_expr_from_header : Str → BlockParser Expr
unfolding pure fail without_brace parse_text
parse_expr_from_header s = parsed_header (parse_text (without_brace s))

pub data ForHeader : Type 0 where
  over : Str → Expr → ForHeader
  while : Expr → ForHeader

abbrev pub loop_node : ForHeader → Nodes → Node
loop_node (over v e) body = for_in v e body
loop_node (while e) body = while_loop e body

-- The text before the first ` in ` and the text behind it.
abbrev onto_front : ℕ → Option (Str × Str) → Option (Str × Str)
onto_front c none = none
onto_front c (some (before, behind)) = some (c ∷ before, behind)

unfoldable pub cut_at_in : Str → Option (Str × Str)
unfolding has_prefix
cut_at_in [] = none
cut_at_in (c ∷ s) =
    let later = onto_front c (cut_at_in s) in
    if has_prefix (c ∷ s) (codes " in ") then some ([], drop 4 (c ∷ s)) else later

unfoldable pub header_of : Str → Option (Str × Str) → BlockParser ForHeader
unfolding ◌>>=◌ pure fail parse_text trim_space
header_of rest none = parsed_header (parse_text rest) >>= λ e. pure (while e)
header_of rest (some (name, iter)) =
    parsed_header (parse_text (trim_space iter)) >>= λ e. pure (over (trim_space name) e)

unfoldable pub parse_for_header : Str → BlockParser ForHeader
unfolding without_brace cut_at_in header_of
parse_for_header ctrl = let rest = without_brace (drop 4 ctrl) in header_of rest (cut_at_in rest)

-- The lines of one statement: up to the line that balances the brackets.
unfoldable pub gather : ℕ → List Str → List Str × List Str
unfolding is_ctrl_line ctrl_content brackets
gather depth [] = ([], [])
gather depth (line ∷ rest) =
    let content = ctrl_content line in
    let (opened, closed) = brackets false content in
    let more = gather (depth + opened - closed) rest in
    if not (is_ctrl_line line)
    then ([], line ∷ rest)
    else if leb (depth + opened) closed
    then (content ∷ [], rest)
    else (content ∷ more.0, more.1)

abbrev pub Block : Type 0
Block = BlockParser (Nodes × Str)

abbrev pub node_onto : Node → Block → Block
node_onto n block = block >>= λ r. pure (node_then n r.0, r.1)

-- A block is read by `block`.
module _ (block : Block) where
  -- The loop over the branches of an `if`, for the condition that was read last.
  unfoldable pub parse_branches : ℕ → Expr → BlockParser (Branches × Nodes)
  unfolding ◌>>=◌ pure fail modify has_prefix parse_expr_from_header
  parse_branches zero cond = fail out_of_turns
  parse_branches (suc fuel) cond =
      let again = parse_branches fuel in
      let else_block : Nodes → BlockParser (Branches × Nodes) = λ body. do
        consume
        r ← block
        if r.1 == codes "}"
            then (consume >> pure (branch_then cond body no_branches, r.0))
            else fail unclosed_else
      in let elif : Nodes → Str → BlockParser (Branches × Nodes) = λ body header. do
        c ← parse_expr_from_header header
        consume
        rest ← again c
        pure (branch_then cond body rest.0, rest.1)
        in do
          r ← block
          if r.1 == codes "}"
              then (consume >> pure (branch_then cond r.0 no_branches, no_nodes))
              else if has_prefix r.1 (codes "} elif ")
              then elif r.0 (drop 7 r.1)
              else if has_prefix r.1 (codes "} else")
              then else_block r.0
              else fail unclosed_if

  -- The switch over a line that starts with `%`.
  unfoldable pub parse_control : ℕ → Str → Block
  unfolding ◌>>=◌ pure fail gets modify has_prefix parse_for_header parse_expr_from_header
      parse_branches gather join
  parse_control fuel ctrl =
      let for_loop : Block = do
        consume
        header ← parse_for_header ctrl
        r ← block
        if r.1 == codes "}"
            then (consume >> node_onto (loop_node header r.0) block)
            else fail unclosed_for
      in let if_block : Block = do
        consume
        cond ← parse_expr_from_header (drop 3 ctrl)
        r ← parse_branches fuel cond
        node_onto (branching r.0 r.1) block
        in let lines_of_statement : Block = do
          lines ← gets (λ ls. gather 0 ls)
          modify (λ _. lines.1)
          node_onto (statement (join lines.0 (codes "\n"))) block
          in if has_prefix ctrl (codes "}")
            then pure (no_nodes, ctrl)
            else if has_prefix ctrl (codes "for ")
            then for_loop
            else if has_prefix ctrl (codes "if ")
            then if_block
            else lines_of_statement

  unfoldable pub block_at : ℕ → List Str → Block
  unfolding ◌>>=◌ pure modify is_ctrl_line ctrl_content parse_control
  block_at fuel [] = pure (no_nodes, [])
  block_at fuel (line ∷ rest) =
      if is_ctrl_line line
      then parse_control fuel (ctrl_content line)
      else (consume >> node_onto (shell_line line) block)

unfoldable pub parse_block_nodes : ℕ → Block
unfolding ◌>>=◌ fail gets block_at
parse_block_nodes zero = fail out_of_turns
parse_block_nodes (suc fuel) =
    let block = parse_block_nodes fuel in
    gets (λ ls. ls) >>= λ lines. block_at block (suc fuel) lines

unfoldable pub parse_whole_body : ℕ → BlockParser Nodes
unfolding ◌>>=◌ pure fail parse_block_nodes
parse_whole_body fuel = do
  r ← parse_block_nodes fuel
  if r.1 == [] then pure r.0 else fail (unexpected_closer r.1)

unfoldable pub parse_body_nodes : List Str → Result BodyError Nodes
unfolding parse_whole_body
parse_body_nodes lines = (parse_whole_body (suc (length lines)) lines).0
