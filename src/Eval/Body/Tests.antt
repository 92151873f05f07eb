-- ===== src/Eval/Body/Tests.antt =====
-- The theorems on bodies at a small body.
use cgpipe.Prelude.{List, [], ◌∷◌, ◌≡◌, ◌≢◌, refl}
use cgpipe.Exec.{Result, ok, err}
use cgpipe.Text.{Str, codes}
use cgpipe.Syntax.Cursor.{out_of_fuel}
use cgpipe.Eval.Body.{
  is_ctrl_line, out_of_turns, in_expression, Nodes, BodyError, no_nodes, parse_body_nodes,
}
use cgpipe.Eval.Body.Lines.{shell_in, shell_of}
use cgpipe.Eval.Body.Blocks.{parse_body_nodes_lem, shell_of-parse_body_nodes}

abbrev looped_lines : List Str
looped_lines =
    codes "sort \\"
    ∷ codes "  % for i in 1..3 {"
    ∷ codes " -k ${i} \\"
    ∷ codes "  % }"
    ∷ codes "% if fast {"
    ∷ codes " -S 4G \\"
    ∷ codes "% } else {"
    ∷ codes " -S 1G \\"
    ∷ codes "% }"
    ∷ codes "in.txt"
    ∷ []

abbrev nodes_or : Result BodyError Nodes → Nodes
nodes_or (ok ns) = ns
nodes_or (err e) = no_nodes

shell_of-parse_body_nodes_example :
    shell_of (nodes_or (parse_body_nodes looped_lines)) ≡ shell_in looped_lines
unfolding parse_body_nodes
shell_of-parse_body_nodes_example =
    shell_of-parse_body_nodes looped_lines (nodes_or (parse_body_nodes looped_lines)) refl

looped_shell :
    shell_in looped_lines
    ≡ codes "sort \\"
      ∷ codes " -k ${i} \\"
      ∷ codes " -S 4G \\"
      ∷ codes " -S 1G \\"
      ∷ codes "in.txt"
      ∷ []
unfolding shell_in is_ctrl_line
looped_shell = refl

parse_body_nodes_lem_example :
    (parse_body_nodes looped_lines ≢ err out_of_turns)
    × (parse_body_nodes looped_lines ≢ err (in_expression out_of_fuel))
parse_body_nodes_lem_example = parse_body_nodes_lem looped_lines
