-- ===== src/Syntax/Cursor.antt =====
-- internal/parser/parser.go: the parser's cursor and its errors.
use cgpipe.Prelude.{Bool, true, false, ◌||◌, nat_eq, if◌then◌else◌, ◌==◌}
use cgpipe.Exec.{ok, err, Exec, pure, fail, gets, modify, ◌>>=◌, ◌>>◌}
use cgpipe.Text.{Str}
use cgpipe.Syntax.Token
use cgpipe.Syntax.Token.{kind_eq}

-- The tokens from the cursor on; there is always one.
pub data Toks : Type 0 where
  last : Token.Token → Toks
  ahead : Token.Token → Toks → Toks

abbrev pub cur : Toks → Token.Token
cur (last t) = t
cur (ahead t ts) = t

abbrev pub advanced : Toks → Toks
advanced (last t) = last t
advanced (ahead t ts) = ts

abbrev pub peek : Toks → Token.Token
peek s = cur (advanced s)

-- What a parse error says.
pub data Problem : Type 0 where
  expected : Token.Kind → Token.Token → Problem
  unexpected behind_expression : Token.Token → Problem
  bad_integer bad_float no_method_call : Str → Problem
  positional_after_keyword unclosed_block short_stage no_assignment no_colon bad_target : Problem
  unknown_reserved : Str → Problem

-- `out_of_range` is Go's panic on a slice of the source.
pub data Failure : Type 0 where
  out_of_fuel out_of_range : Failure
  failed : Token.Pos → Problem → Failure

abbrev pub Parser {ℓ} : Type ℓ → Type ℓ
Parser A = Exec Toks Failure A

unfoldable pub advance : Parser Token.Token
advance s = (ok (cur s), advanced s)

unfoldable pub accept : Token.Kind → Parser Bool
unfolding ◌>>=◌ pure gets modify
accept k = do t ← gets cur; if t.kind == k then modify advanced >> pure true else pure false

unfoldable pub expect : Token.Kind → Parser Token.Token
unfolding ◌>>=◌ fail gets advance
expect k = do t ← gets cur; if t.kind == k then advance else fail (failed t.pos (expected k t))

abbrev pub is_separator : Token.Token → Bool
is_separator t = t.kind == Token.newline || t.kind == Token.semi

-- skipSeparators; at a last token that is a separator it does not end.
unfoldable pub skip_separators : Parser (Unit {0})
skip_separators (last t) = if is_separator t then (err out_of_fuel, last t) else (ok tt, last t)
skip_separators (ahead t ts) =
    let more = skip_separators ts in if is_separator t then more else (ok tt, ahead t ts)
