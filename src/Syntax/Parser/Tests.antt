-- ===== src/Syntax/Parser/Tests.antt =====
-- The theorems on the parser of expressions at small texts.
use cgpipe.Prelude.{ℕ, [], ◌≡◌, ◌≢◌, refl, arith}
use cgpipe.Exec.{ok, err}
use cgpipe.Text.{codes}
use cgpipe.Syntax.Token
use cgpipe.Syntax.Cursor.{Toks, last, out_of_fuel}
use cgpipe.Syntax.Parser.{parse_text, parse_expr}
use cgpipe.Syntax.Parser.Print.{
  Tree, name, number, infix_at, opposite, item, op_add, op_mul, op_pow, emit, expr_of, word,
}
use cgpipe.Syntax.Parser.Total.{parse_text_lem}
use cgpipe.Syntax.Parser.RoundTrip.{parse_expr-emit}

parse_text_lem_example :
    parse_text (codes "f(-x ** 2, [a..b], k = {\"n\": 1,}) && !y[:3]") ≢ err out_of_fuel
parse_text_lem_example = parse_text_lem (codes "f(-x ** 2, [a..b], k = {\"n\": 1,}) && !y[:3]")

abbrev column : ℕ → Token.Pos
column n = record { file = codes "<expr>"; line = 1; col = n; off = n }

-- (a + b) * -c[0] ** d
abbrev product : Tree
product =
    infix_at op_mul (column 3)
      (infix_at op_add (column 2) (name (column 1) (codes "a")) (name (column 2) (codes "b")))
      (opposite (column 4) (
        infix_at op_pow (column 7)
          (item (column 5) (name (column 5) (codes "c")) (number (column 6) (codes "0") 0 refl))
          (name (column 8) (codes "d"))))

abbrev end_of_text : Toks
end_of_text = last (word Token.eof [] (column 9))

parse_expr-emit_example :
    parse_expr 20 0 (emit 0 product end_of_text) ≡ (ok (expr_of product), end_of_text)
parse_expr-emit_example =
    parse_expr-emit product 20 0 end_of_text (omega arith) (omega arith) (omega arith, refl)
