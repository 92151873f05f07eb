-- ===== src/Syntax/Token.antt =====
-- internal/token/token.go: kinds, positions and tokens.
use cgpipe.Prelude.{
  ℕ, ◌↔◌, ◌≡◌, ◌∙◌, ap, sym, refl, [], Bool, true, ◌&&◌, nat_eq, list_eq, Eq, ◌==◌, eq_iff, eq_self,
  if◌then◌else◌, arith,
}
use cgpipe.Text.{Str, codes}

-- Pos
pub record Pos : Type 0 where
  pub file : Str
  pub line : ℕ
  pub col : ℕ
  pub off : ℕ

abbrev pub pos_beq : Pos → Pos → Bool
pos_beq p q = p.file == q.file && (p.line == q.line && (p.col == q.col && p.off == q.off))

pub pos_beq_iff : (p q : Pos) → (pos_beq p q ≡ true) ↔ (p ≡ q)
pos_beq_iff p q = ground (arith, eq_iff p.file q.file)

instance abbrev pub pos_eq : Eq Pos
pos_eq = record { beq = pos_beq; beq_iff = pos_beq_iff }

-- The zero value of Pos.
abbrev pub no_pos : Pos
no_pos = record { file = []; line = 0; col = 0; off = 0 }

pub data Kind : Type 0 where
  illegal eof newline ident int float string kw_if kw_elif : Kind
  kw_else kw_for kw_in kw_with kw_true kw_false assign q_assign plus_assign : Kind
  eq neq lt le gt ge and_and or_or bang : Kind
  plus minus star slash percent pow colon semi comma : Kind
  dot dot_dot at_sign caret l_paren r_paren l_brack r_brack l_brace : Kind
  r_brace l_body r_body body : Kind

-- The value of a kind.
abbrev pub kind_number : Kind → ℕ
kind_number illegal = 0
kind_number eof = 1
kind_number newline = 2
kind_number ident = 3
kind_number int = 4
kind_number float = 5
kind_number string = 6
kind_number kw_if = 7
kind_number kw_elif = 8
kind_number kw_else = 9
kind_number kw_for = 10
kind_number kw_in = 11
kind_number kw_with = 12
kind_number kw_true = 13
kind_number kw_false = 14
kind_number assign = 15
kind_number q_assign = 16
kind_number plus_assign = 17
kind_number eq = 18
kind_number neq = 19
kind_number lt = 20
kind_number le = 21
kind_number gt = 22
kind_number ge = 23
kind_number and_and = 24
kind_number or_or = 25
kind_number bang = 26
kind_number plus = 27
kind_number minus = 28
kind_number star = 29
kind_number slash = 30
kind_number percent = 31
kind_number pow = 32
kind_number colon = 33
kind_number semi = 34
kind_number comma = 35
kind_number dot = 36
kind_number dot_dot = 37
kind_number at_sign = 38
kind_number caret = 39
kind_number l_paren = 40
kind_number r_paren = 41
kind_number l_brack = 42
kind_number r_brack = 43
kind_number l_brace = 44
kind_number r_brace = 45
kind_number l_body = 46
kind_number r_body = 47
kind_number body = 48

kind_of_number : ℕ → Kind
kind_of_number n =
    if n == 0
    then illegal
    else if n == 1
    then eof
    else if n == 2
    then newline
    else if n == 3
    then ident
    else if n == 4
    then int
    else if n == 5
    then float
    else if n == 6
    then string
    else if n == 7
    then kw_if
    else if n == 8
    then kw_elif
    else if n == 9
    then kw_else
    else if n == 10
    then kw_for
    else if n == 11
    then kw_in
    else if n == 12
    then kw_with
    else if n == 13
    then kw_true
    else if n == 14
    then kw_false
    else if n == 15
    then assign
    else if n == 16
    then q_assign
    else if n == 17
    then plus_assign
    else if n == 18
    then eq
    else if n == 19
    then neq
    else if n == 20
    then lt
    else if n == 21
    then le
    else if n == 22
    then gt
    else if n == 23
    then ge
    else if n == 24
    then and_and
    else if n == 25
    then or_or
    else if n == 26
    then bang
    else if n == 27
    then plus
    else if n == 28
    then minus
    else if n == 29
    then star
    else if n == 30
    then slash
    else if n == 31
    then percent
    else if n == 32
    then pow
    else if n == 33
    then colon
    else if n == 34
    then semi
    else if n == 35
    then comma
    else if n == 36
    then dot
    else if n == 37
    then dot_dot
    else if n == 38
    then at_sign
    else if n == 39
    then caret
    else if n == 40
    then l_paren
    else if n == 41
    then r_paren
    else if n == 42
    then l_brack
    else if n == 43
    then r_brack
    else if n == 44
    then l_brace
    else if n == 45
    then r_brace
    else if n == 46
    then l_body
    else if n == 47
    then r_body
    else body

kind_of_number-kind_number : (k : Kind) → kind_of_number (kind_number k) ≡ k
unfolding kind_of_number
kind_of_number-kind_number illegal = refl
kind_of_number-kind_number eof = refl
kind_of_number-kind_number newline = refl
kind_of_number-kind_number ident = refl
kind_of_number-kind_number int = refl
kind_of_number-kind_number float = refl
kind_of_number-kind_number string = refl
kind_of_number-kind_number kw_if = refl
kind_of_number-kind_number kw_elif = refl
kind_of_number-kind_number kw_else = refl
kind_of_number-kind_number kw_for = refl
kind_of_number-kind_number kw_in = refl
kind_of_number-kind_number kw_with = refl
kind_of_number-kind_number kw_true = refl
kind_of_number-kind_number kw_false = refl
kind_of_number-kind_number assign = refl
kind_of_number-kind_number q_assign = refl
kind_of_number-kind_number plus_assign = refl
kind_of_number-kind_number eq = refl
kind_of_number-kind_number neq = refl
kind_of_number-kind_number lt = refl
kind_of_number-kind_number le = refl
kind_of_number-kind_number gt = refl
kind_of_number-kind_number ge = refl
kind_of_number-kind_number and_and = refl
kind_of_number-kind_number or_or = refl
kind_of_number-kind_number bang = refl
kind_of_number-kind_number plus = refl
kind_of_number-kind_number minus = refl
kind_of_number-kind_number star = refl
kind_of_number-kind_number slash = refl
kind_of_number-kind_number percent = refl
kind_of_number-kind_number pow = refl
kind_of_number-kind_number colon = refl
kind_of_number-kind_number semi = refl
kind_of_number-kind_number comma = refl
kind_of_number-kind_number dot = refl
kind_of_number-kind_number dot_dot = refl
kind_of_number-kind_number at_sign = refl
kind_of_number-kind_number caret = refl
kind_of_number-kind_number l_paren = refl
kind_of_number-kind_number r_paren = refl
kind_of_number-kind_number l_brack = refl
kind_of_number-kind_number r_brack = refl
kind_of_number-kind_number l_brace = refl
kind_of_number-kind_number r_brace = refl
kind_of_number-kind_number l_body = refl
kind_of_number-kind_number r_body = refl
kind_of_number-kind_number body = refl

abbrev pub kind_beq : Kind → Kind → Bool
kind_beq k l = kind_number k == kind_number l

pub kind_beq_iff : (k l : Kind) → (kind_beq k l ≡ true) ↔ (k ≡ l)
kind_beq_iff k l = (
  λ h.
      sym (kind_of_number-kind_number k)
      ∙ (ap kind_of_number ((eq_iff (kind_number k) (kind_number l)).0 h)
          ∙ kind_of_number-kind_number l),
  λ e. rw e (eq_self (kind_number l)),
)

instance abbrev pub kind_eq : Eq Kind
kind_eq = record { beq = kind_beq; beq_iff = kind_beq_iff }

-- names, and Kind.String
abbrev pub kind_name : Kind → Str
kind_name illegal = codes "ILLEGAL"
kind_name eof = codes "EOF"
kind_name newline = codes "NEWLINE"
kind_name ident = codes "IDENT"
kind_name int = codes "INT"
kind_name float = codes "FLOAT"
kind_name string = codes "STRING"
kind_name kw_if = codes "if"
kind_name kw_elif = codes "elif"
kind_name kw_else = codes "else"
kind_name kw_for = codes "for"
kind_name kw_in = codes "in"
kind_name kw_with = codes "with"
kind_name kw_true = codes "true"
kind_name kw_false = codes "false"
kind_name assign = codes "="
kind_name q_assign = codes "?="
kind_name plus_assign = codes "+="
kind_name eq = codes "=="
kind_name neq = codes "!="
kind_name lt = codes "<"
kind_name le = codes "<="
kind_name gt = codes ">"
kind_name ge = codes ">="
kind_name and_and = codes "&&"
kind_name or_or = codes "||"
kind_name bang = codes "!"
kind_name plus = codes "+"
kind_name minus = codes "-"
kind_name star = codes "*"
kind_name slash = codes "/"
kind_name percent = codes "%"
kind_name pow = codes "**"
kind_name colon = codes ":"
kind_name semi = codes ";"
kind_name comma = codes ","
kind_name dot = codes "."
kind_name dot_dot = codes ".."
kind_name at_sign = codes "@"
kind_name caret = codes "^"
kind_name l_paren = codes "("
kind_name r_paren = codes ")"
kind_name l_brack = codes "["
kind_name r_brack = codes "]"
kind_name l_brace = codes "{"
kind_name r_brace = codes "}"
kind_name l_body = codes "{{"
kind_name r_body = codes "}}"
kind_name body = codes "BODY"

pub record Token : Type 0 where
  pub kind : Kind
  pub lit : Str
  pub pos : Pos

-- Lookup
abbrev pub lookup_keyword : Str → Kind
lookup_keyword ident_text =
    if ident_text == codes "if"
    then kw_if
    else if ident_text == codes "elif"
    then kw_elif
    else if ident_text == codes "else"
    then kw_else
    else if ident_text == codes "for"
    then kw_for
    else if ident_text == codes "in"
    then kw_in
    else if ident_text == codes "with"
    then kw_with
    else if ident_text == codes "true"
    then kw_true
    else if ident_text == codes "false"
    then kw_false
    else ident
