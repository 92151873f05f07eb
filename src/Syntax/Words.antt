-- ===== src/Syntax/Words.antt =====
-- internal/parser/parser.go: the words of a declaration, from declWords to tokenWidth. Each turn of the
-- loop of declWords reads a byte, so a text has fuel enough in its bytes.
use cgpipe.Prelude.{
  ℕ, zero, suc, ◌+◌, ◌-◌, List, [], ◌∷◌, ◌++◌, Bool, true, false, ◌&&◌, ◌||◌, Option, none, some,
  nat_eq, list_eq, if◌then◌else◌, ◌==◌, length, take, drop,
}
use cgpipe.Text.{Str}
use cgpipe.Syntax.Token
use cgpipe.Syntax.Lexer.{byte_at}

abbrev one_more : Option ℕ → Option ℕ
one_more none = none
one_more (some n) = some (suc n)

abbrev flip : Bool → Bool
flip true = false
flip false = true

-- declBraceSpan; the flag is inStr.
unfoldable pub brace_span : Bool → ℕ → Str → Option ℕ
brace_span in_str depth [] = none
brace_span in_str depth (c ∷ []) = if c == b'}' && (depth == 0 && flip in_str) then some 0 else none
brace_span in_str depth (c ∷ d ∷ s) =
    let escaped =
      one_more (one_more (brace_span (if d == b'"' then flip in_str else in_str) depth s)) in
    let quote = one_more (brace_span (flip in_str) depth (d ∷ s)) in
    let same = one_more (brace_span in_str depth (d ∷ s)) in
    let deeper = one_more (brace_span in_str (suc depth) (d ∷ s)) in
    let outer = one_more (brace_span in_str (depth - 1) (d ∷ s)) in
    if c == 92
    then escaped
    else if c == b'"'
    then quote
    else if in_str
    then same
    else if c == b'{'
    then deeper
    else if c == b'}'
    then (if depth == 0 then some 0 else outer)
    else same

-- Where declParenSpan is: outside of quotes, behind a backslash, or in quotes of either kind.
pub data Quoting : Type 0 where
  outside escaped single double double_escaped : Quoting

-- declParenSpan
unfoldable pub paren_span : Quoting → ℕ → Str → Option ℕ
paren_span q depth [] = none
paren_span escaped depth (c ∷ s) = one_more (paren_span outside depth s)
paren_span single depth (c ∷ s) =
    let on = one_more (paren_span single depth s) in
    let closed = one_more (paren_span outside depth s) in if c == 39 then closed else on
paren_span double depth (c ∷ s) =
    let on = one_more (paren_span double depth s) in
    let closed = one_more (paren_span outside depth s) in
    let skip = one_more (paren_span double_escaped depth s) in
    if c == b'"' then closed else if c == 92 then skip else on
paren_span double_escaped depth (c ∷ s) = one_more (paren_span double depth s)
paren_span outside depth (c ∷ s) =
    let skip = one_more (paren_span escaped depth s) in
    let in_single = one_more (paren_span single depth s) in
    let in_double = one_more (paren_span double depth s) in
    let deeper = one_more (paren_span outside (suc depth) s) in
    let outer = one_more (paren_span outside (depth - 1) s) in
    let same = one_more (paren_span outside depth s) in
    if c == 92
    then skip
    else if c == 39
    then in_single
    else if c == b'"'
    then in_double
    else if c == b'('
    then deeper
    else if c == b')'
    then (if depth == 0 then some 0 else outer)
    else same

-- copySpan: what is copied of a text that starts with an opener, and what is left.
abbrev pub copy_span : Str → Option ℕ → Str × Str
copy_span s none = (s, [])
copy_span s (some n) = (take (n + 3) s, drop (n + 3) s)

-- The scan for a closing quote: the text up to it and with it, and what is left.
unfoldable pub quoted : Str → Str × Str
quoted [] = ([], [])
quoted (c ∷ []) = (c ∷ [], [])
quoted (c ∷ d ∷ s) =
    let skip = quoted s in
    let more = quoted (d ∷ s) in
    if c == 92
    then (c ∷ d ∷ skip.0, skip.1)
    else if c == b'"'
    then (c ∷ [], d ∷ s)
    else (c ∷ more.0, more.1)

abbrev pub flush : Str → List Str → List Str
flush [] ws = ws
flush (c ∷ w) ws = (c ∷ w) ∷ ws

abbrev pub is_blank : ℕ → Bool
is_blank c = c == 32 || (c == 9 || (c == 13 || c == 10))

-- What a turn copies into the word at the byte `c` before `s`, and what is left.
unfoldable pub piece : ℕ → Str → Str × Str
unfolding brace_span paren_span quoted
piece c s =
    let text = quoted s in
    if c == b'"'
    then (c ∷ text.0, text.1)
    else if (c == b'$' || c == b'@') && byte_at 0 s == b'{'
    then copy_span (c ∷ s) (brace_span false 0 (drop 1 s))
    else if c == b'$' && byte_at 0 s == b'('
    then copy_span (c ∷ s) (paren_span outside 0 (drop 1 s))
    else (c ∷ [], s)

-- The loop of declWords, with the word that is being read.
unfoldable pub words_from : ℕ → Str → Str → List Str
unfolding piece
words_from zero word s = []
words_from (suc fuel) word [] = flush word []
words_from (suc fuel) word (c ∷ s) =
    let next = flush word (words_from fuel [] s) in
    let p = piece c s in
    let on = words_from fuel (word ++ p.0) p.1 in
    if c == b'#' then flush word [] else if is_blank c then next else on

unfoldable pub decl_words : Str → List Str
unfolding words_from
decl_words raw = words_from (suc (length raw)) [] raw

-- tokenWidth
unfoldable pub token_width : Token.Token → ℕ
token_width t = width_of t.kind
  where
    width_of : Token.Kind → ℕ
    width_of Token.ident = length t.lit
    width_of Token.int = length t.lit
    width_of Token.float = length t.lit
    width_of k = length (Token.kind_name k)
