-- ===== src/Syntax/Statements/Tests.antt =====
-- The parser of files at small sources.
use cgpipe.Prelude.{ℕ, [], ◌∷◌, none, ◌≡◌, ◌≢◌, refl}
use cgpipe.Exec.{ok, err}
use cgpipe.Text.{codes}
use cgpipe.Syntax.Token
use cgpipe.Syntax.Ast.{int_lit, absent}
use cgpipe.Syntax.Cursor.{out_of_fuel, out_of_range, failed, unclosed_block}
use cgpipe.Syntax.Stmt.{no_stmts, stmt_then, assign, target}
use cgpipe.Syntax.Statements.{parse}
use cgpipe.Syntax.Statements.Total.{parse_lem}

parse_lem_example :
    parse (codes "#!/usr/bin/cgpipe\n# help\nx = 1\nif x { print x }\na.txt: b.txt") (codes "a.cgp")
    ≢ err out_of_fuel
parse_lem_example =
    parse_lem (codes "#!/usr/bin/cgpipe\n# help\nx = 1\nif x { print x }\na.txt: b.txt")
      (codes "a.cgp")

abbrev place : ℕ → ℕ → ℕ → Token.Pos
place line col off = record { file = codes "a"; line = line; col = col; off = off }

parse_small :
    parse (codes "# help\nx = 1\na: b c\n") (codes "a")
    ≡ ok (record {
      stmts =
          stmt_then
            (assign (place 2 1 7) (codes "x") absent Token.assign (int_lit (place 2 5 11) 1))
            (stmt_then
              (target (place 3 1 13) [] (codes "a" ∷ []) (codes "b" ∷ codes "c" ∷ []) none)
              no_stmts);
      help = codes "help";
    })
unfolding parse
parse_small = refl

parse_open_block : parse (codes "if x {") (codes "a") ≡ err (failed (place 1 7 6) unclosed_block)
unfolding parse
parse_open_block = refl

-- The name of `unset` is sliced as wide as the kind of its token is written, beyond the source.
parse_unset_text : parse (codes "unset \"\"") (codes "a") ≡ err out_of_range
unfolding parse
parse_unset_text = refl
