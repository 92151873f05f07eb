-- ===== src/Syntax/Lexer.antt =====
-- internal/lexer/lexer.go: the lexer. The source is held as what is left to read, with the position
-- of its first byte; the recursions of `lexCode` and of the loop in `lexBody` take fuel.
mod Reads
mod Places
pub mod Stream
mod Positions
mod Tests
use cgpipe.Prelude.{
  ℕ, zero, suc, ◌+◌, ◌-◌, ◌/◌, ◌%◌, ◌*◌, List, [], ◌∷◌, ◌++◌, Bool, true, false, not, ◌&&◌, ◌||◌,
  Option, none, some, nat_eq, list_eq, if◌then◌else◌, leb, ltb, ◌==◌, length,
}
use cgpipe.Text.{Str, codes, trim_space}
use cgpipe.Syntax.Token
use cgpipe.Syntax.Token.{kind_eq}

-- '\n' and the other bytes without a name
abbrev newline_byte : ℕ
newline_byte = 10

abbrev pub is_digit : ℕ → Bool
is_digit c = leb b'0' c && leb c b'9'

abbrev pub is_ident_start : ℕ → Bool
is_ident_start c = c == b'_' || ((leb b'a' c && leb c b'z') || (leb b'A' c && leb c b'Z'))

abbrev pub is_ident_part : ℕ → Bool
is_ident_part c = is_ident_start c || is_digit c

-- Lexer; `here` is `pos()`, its `off` the number of bytes read.
pub record Lexer : Type 0 where
  pub rest : Str
  pub here : Token.Pos
  pub in_body : Bool
  pub pending_r_body : Bool
  pub r_body_pos : Token.Pos
  pub paren_depth : ℕ

abbrev pub start_of : Str → Token.Pos
start_of file = record { file = file; line = 1; col = 1; off = 0 }

-- New
abbrev pub new : Str → Str → Lexer
new src file = record {
  rest = src;
  here = start_of file;
  in_body = false;
  pending_r_body = false;
  r_body_pos = Token.no_pos;
  paren_depth = 0;
}

abbrev pub tok : Token.Kind → Str → Token.Pos → Token.Token
tok k lit p = record { kind = k; lit = lit; pos = p }

-- The position behind a byte.
abbrev pub moved : ℕ → Token.Pos → Token.Pos
moved c p =
    if c == newline_byte
    then record p { line = suc p.line; col = 1; off = suc p.off }
    else record p { col = suc p.col; off = suc p.off }

-- What a loop has read, what is left, and the position of that.
pub record Read : Type 0 where
  pub lit : Str
  pub rest : Str
  pub here : Token.Pos

abbrev pub nothing : Str → Token.Pos → Read
nothing rest p = record { lit = []; rest = rest; here = p }

abbrev pub onto : ℕ → Read → Read
onto c r = record r { lit = c ∷ r.lit }

abbrev pub read_to : Read → Lexer → Lexer
read_to r l = record l { rest = r.rest; here = r.here }

-- advance
unfoldable pub advance : Str → Token.Pos → Read
advance [] p = nothing [] p
advance (c ∷ s) p = onto c (nothing s (moved c p))

-- The loops that read bytes of one class.
unfoldable pub read_while : (ℕ → Bool) → Str → Token.Pos → Read
read_while test [] p = nothing [] p
read_while test (c ∷ s) p =
    let more = onto c (read_while test s (moved c p)) in if test c then more else nothing (c ∷ s) p

abbrev is_inline_space : ℕ → Bool
is_inline_space c = c == 32 || (c == 9 || c == 13)

-- skipInlineSpaceAndComments; the flag is set inside a comment.
unfoldable pub skip_from : Bool → Str → Token.Pos → Read
skip_from inside [] p = nothing [] p
skip_from true (c ∷ s) p =
    let more = onto c (skip_from true s (moved c p)) in
    if c == newline_byte then nothing (c ∷ s) p else more
skip_from false (c ∷ s) p =
    let blank = onto c (skip_from false s (moved c p)) in
    let comment = onto c (skip_from true s (moved c p)) in
    if is_inline_space c then blank else if c == b'#' then comment else nothing (c ∷ s) p

-- l.at(n)
abbrev pub byte_at : ℕ → Str → ℕ
byte_at n [] = 0
byte_at zero (c ∷ s) = c
byte_at (suc n) (c ∷ s) = byte_at n s

unfoldable pub lex_ident : Token.Pos → Lexer → Token.Token × Lexer
unfolding read_while
lex_ident start l =
    let r = read_while is_ident_part l.rest l.here in
    (tok (Token.lookup_keyword r.lit) r.lit start, read_to r l)

abbrev pub then_read : Read → Read → Read
then_read r more = record more { lit = r.lit ++ more.lit }

-- The fraction behind the digits, if there is one.
unfoldable pub read_fraction : Read → Token.Kind × Read
unfolding advance read_while
read_fraction r =
    let dot = advance r.rest r.here in
    let more = read_while is_digit dot.rest dot.here in
    if byte_at 0 r.rest == b'.' && (not (byte_at 1 r.rest == b'.') && is_digit (byte_at 1 r.rest))
    then (Token.float, then_read r (then_read dot more))
    else (Token.int, r)

unfoldable pub lex_number : Token.Pos → Lexer → Token.Token × Lexer
unfolding read_fraction read_while
lex_number start l =
    let (kind, r) = read_fraction (read_while is_digit l.rest l.here) in
    (tok kind r.lit start, read_to r l)

-- The loop of lexString: the text up to the closing quote, if there is one.
unfoldable pub read_string : Str → Token.Pos → Bool × Read
read_string [] p = (false, nothing [] p)
read_string (c ∷ []) p =
    if c == b'"'
    then (true, nothing (c ∷ []) p)
    else if c == newline_byte
    then (false, nothing (c ∷ []) p)
    else (false, onto c (nothing [] (moved c p)))
read_string (c ∷ d ∷ s) p =
    let escaped = read_string s (moved d (moved c p)) in
    let plain = read_string (d ∷ s) (moved c p) in
    if c == 92
    then (escaped.0, onto c (onto d escaped.1))
    else if c == b'"'
    then (true, nothing (c ∷ d ∷ s) p)
    else if c == newline_byte
    then (false, nothing (c ∷ d ∷ s) p)
    else (plain.0, onto c plain.1)

abbrev string_token : Bool → Read → Token.Pos → Lexer → Token.Token × Lexer
string_token true r start l = (tok Token.string r.lit start, read_to (advance r.rest r.here) l)
string_token false r start l = (tok Token.illegal r.lit start, read_to r l)

unfoldable pub lex_string : Token.Pos → Lexer → Token.Token × Lexer
unfolding advance read_string
lex_string start l =
    let quote = advance l.rest l.here in
    let (closed, r) = read_string quote.rest quote.here in string_token closed r start l

-- One byte, then a second one if it makes a longer operator.
abbrev pub one : Token.Kind → Str → Token.Pos → Lexer → Token.Token × Lexer
one k lit start l = (tok k lit start, read_to (advance l.rest l.here) l)

abbrev pub two : Token.Kind → Str → Token.Pos → Lexer → Token.Token × Lexer
two k lit start l =
    let first = advance l.rest l.here in
    (tok k lit start, read_to (advance first.rest first.here) l)

abbrev pub one_or_two : ℕ → Token.Kind → Token.Kind → Str → Token.Pos → Lexer → Token.Token × Lexer
one_or_two d longer shorter lit start l =
    if byte_at 1 l.rest == d then two longer [] start l else one shorter lit start l

abbrev pub opened : Token.Token × Lexer → Token.Token × Lexer
opened (t, l) = (t, record l { paren_depth = suc l.paren_depth })

-- the guarded decrement
abbrev pub closed : Token.Token × Lexer → Token.Token × Lexer
closed (t, l) = (t, record l { paren_depth = l.paren_depth - 1 })

abbrev pub body_next : Token.Token × Lexer → Token.Token × Lexer
body_next (t, l) = (t, record l { in_body = true })

-- string(c) of a byte: the UTF-8 text of that code point
abbrev string_of_byte : ℕ → Str
string_of_byte c = if ltb c 128 then c ∷ [] else (192 + c / 64) ∷ (128 + c % 64) ∷ []

unfoldable pub lex_operator : ℕ → Token.Pos → Lexer → Token.Token × Lexer
unfolding advance
lex_operator c start l =
    if c == b'='
    then one_or_two b'=' Token.eq Token.assign [] start l
    else if c == b'?'
    then one_or_two b'=' Token.q_assign Token.illegal (codes "?") start l
    else if c == b'!'
    then one_or_two b'=' Token.neq Token.bang [] start l
    else if c == b'<'
    then one_or_two b'=' Token.le Token.lt [] start l
    else if c == b'>'
    then one_or_two b'=' Token.ge Token.gt [] start l
    else if c == b'&'
    then one_or_two b'&' Token.and_and Token.illegal (codes "&") start l
    else if c == b'|'
    then one_or_two b'|' Token.or_or Token.illegal (codes "|") start l
    else if c == b'+'
    then one_or_two b'=' Token.plus_assign Token.plus [] start l
    else if c == b'-'
    then one Token.minus [] start l
    else if c == b'*'
    then one_or_two b'*' Token.pow Token.star [] start l
    else if c == b'/'
    then one Token.slash [] start l
    else if c == b'%'
    then one Token.percent [] start l
    else if c == b'.'
    then one_or_two b'.' Token.dot_dot Token.dot [] start l
    else if c == b':'
    then one Token.colon [] start l
    else if c == b';'
    then one Token.semi [] start l
    else if c == b','
    then one Token.comma [] start l
    else if c == b'@'
    then one Token.at_sign [] start l
    else if c == b'^'
    then one Token.caret [] start l
    else if c == b'('
    then opened (one Token.l_paren [] start l)
    else if c == b')'
    then closed (one Token.r_paren [] start l)
    else if c == b'['
    then opened (one Token.l_brack [] start l)
    else if c == b']'
    then closed (one Token.r_brack [] start l)
    else if c == b'{'
    then (if byte_at 1 l.rest == b'{'
        then body_next (two Token.l_body (codes "{{") start l)
        else one Token.l_brace [] start l)
    else if c == b'}'
    then one Token.r_brace [] start l
    else one Token.illegal (string_of_byte c) start l

-- The switch of lexCode at the byte `c`, the first of what is left. `again` is the call that skips an
-- insignificant newline.
unfoldable pub lex_at : ℕ → Option (Token.Token × Lexer) → Lexer → Option (Token.Token × Lexer)
unfolding advance lex_ident lex_number lex_string lex_operator
lex_at c again l =
    if c == newline_byte
    then (if ltb 0 l.paren_depth
        then again
        else some (tok Token.newline [] l.here, read_to (advance l.rest l.here) l))
    else if is_ident_start c
    then some (lex_ident l.here l)
    else if is_digit c
    then some (lex_number l.here l)
    else if c == b'"'
    then some (lex_string l.here l)
    else some (lex_operator c l.here l)

abbrev lex_rest :
    Str → (Lexer → Option (Token.Token × Lexer)) → Lexer → Option (Token.Token × Lexer)
lex_rest [] again l = some (tok Token.eof [] l.here, l)
lex_rest (c ∷ s) again l = lex_at c (again (read_to (advance l.rest l.here) l)) l

unfoldable pub lex_code : ℕ → Lexer → Option (Token.Token × Lexer)
unfolding lex_at skip_from advance
lex_code zero l = none
lex_code (suc fuel) l =
    let skipped = read_to (skip_from false l.rest l.here) l in
    lex_rest skipped.rest (lex_code fuel) skipped

-- readLine; `lit` is the whole line with its newline, and the text is the line without.
abbrev without_newline : Str → Str
without_newline [] = []
without_newline (c ∷ s) = if c == newline_byte then [] else c ∷ without_newline s

-- strings.TrimSuffix(line, "\r")
abbrev trim_cr : Str → Str
trim_cr [] = []
trim_cr (c ∷ []) = if c == 13 then [] else c ∷ []
trim_cr (c ∷ d ∷ s) = c ∷ trim_cr (d ∷ s)

unfoldable pub read_line : Str → Token.Pos → Read
read_line [] p = nothing [] p
read_line (c ∷ s) p =
    let more = onto c (read_line s (moved c p)) in
    if c == newline_byte then onto c (nothing s (moved c p)) else more

-- What the loop of lexBody has found: the body, and where its last line starts if it is closed.
pub record Body : Type 0 where
  pub read : Read
  pub close : Option Token.Pos

abbrev behind : Str → Option Body → Option Body
behind lit none = none
behind lit (some b) = some (record b { read = record b.read { lit = lit ++ b.read.lit } })

abbrev closes : Str → Bool
closes line = trim_space (trim_cr (without_newline line)) == codes "}}"

abbrev body_rest : Str → Token.Pos → (Str → Token.Pos → Option Body) → Option Body
body_rest [] p again = some (record { read = nothing [] p; close = none })
body_rest (c ∷ s) p again =
    let line = read_line (c ∷ s) p in
    let more = behind line.lit (again line.rest line.here) in
    if closes line.lit
    then some (record { read = nothing line.rest line.here; close = some p })
    else more

unfoldable pub read_body : ℕ → Str → Token.Pos → Option Body
unfolding read_line trim_space
read_body zero s p = none
read_body (suc fuel) s p = body_rest s p (read_body fuel)

abbrev body_token : Token.Pos → Lexer → Option Body → Option (Token.Token × Lexer)
body_token start l none = none
body_token start l (some b) = elim b.close [
  | none ↦ some (tok Token.body b.read.lit start, record (read_to b.read l) { in_body = false })
  | some p ↦ some (
    tok Token.body b.read.lit start,
    record (read_to b.read l) { in_body = false; pending_r_body = true; r_body_pos = p },
  )
]

unfoldable pub lex_body : ℕ → Lexer → Option (Token.Token × Lexer)
unfolding read_body
lex_body fuel l = body_token l.here l (read_body fuel l.rest l.here)

-- Next; more fuel than there are bytes left is enough.
unfoldable pub next : Lexer → Option (Token.Token × Lexer)
unfolding lex_body lex_code
next l =
    if l.pending_r_body
    then some (tok Token.r_body (codes "}}") l.r_body_pos, record l { pending_r_body = false })
    else if l.in_body
    then lex_body (suc (length l.rest)) l
    else lex_code (suc (length l.rest)) l

abbrev onto_tokens : Token.Token → Option (List Token.Token) → Option (List Token.Token)
onto_tokens t none = none
onto_tokens t (some ts) = some (t ∷ ts)

abbrev tokens_behind :
    Option (Token.Token × Lexer) → (Lexer → Option (List Token.Token)) → Option (List Token.Token)
tokens_behind none again = none
tokens_behind (some (t, l)) again =
    let more = onto_tokens t (again l) in if t.kind == Token.eof then some (t ∷ []) else more

unfoldable pub tokens_from : ℕ → Lexer → Option (List Token.Token)
unfolding next
tokens_from zero l = none
tokens_from (suc fuel) l = tokens_behind (next l) (tokens_from fuel)

-- Tokenize; each token reads a byte, or ends a body, or is the last.
unfoldable pub tokenize : Str → Str → Option (List Token.Token)
unfolding tokens_from
tokenize src file = tokens_from (3 * length src + 1) (new src file)
