-- ===== src/Syntax/Lexer/Places.antt =====
-- Where the tokens stand, and that every call of `Next` comes to an end.
use cgpipe.Prelude.{
  ℕ, zero, suc, ◌+◌, ◌*◌, ◌-◌, ◌<◌, ◌≤◌, [], ◌∷◌, ◌++◌, Bool, true, false, Option, none, some,
  nat_eq, list_eq, if◌then◌else◌, ◌==◌, ltb, length, append_assoc, ◌≡◌, refl, sym, ap, ◌∙◌, subst,
  ◌⊎◌, inl, inr, arith,
}
use cgpipe.Text.{Str, codes}
use cgpipe.Syntax.Token
use cgpipe.Syntax.Token.{kind_eq}
use cgpipe.Syntax.Lexer.{
  Lexer, start_of, Read, then_read, string_of_byte, byte_at, read_to, advance, read_while,
  skip_from, read_fraction, read_string, lex_ident, lex_number, lex_string, lex_operator, lex_at,
  lex_code, is_digit, is_ident_part, is_ident_start, newline_byte, string_token, one, two,
  one_or_two, lex_rest,
}
use cgpipe.Syntax.Lexer.Reads.{
  moved_over, moved_over-append, IsRead, advance-IsRead, read_while-IsRead, skip_from-IsRead,
  read_fraction-IsRead, read_string-IsRead, read_fraction-shorter, read_while-shorter,
  IsRead-shorter, IsRead-then,
}

-- A position in the source: that behind some front of it.
pub record IsPlace (src file : Str) (p : Token.Pos) : Type 0 where
  pub before : Str
  pub after : Str
  pub split : src ≡ before ++ after
  pub place : p ≡ moved_over before (start_of file)

module _ (src file : Str) where
  -- The lexer stands at a place of the source, with the rest of it to read.
  pub record IsAt (rest : Str) (here : Token.Pos) : Type 0 where
    pub before : Str
    pub split : src ≡ before ++ rest
    pub place : here ≡ moved_over before (start_of file)

  pub IsAt-IsPlace : (rest : Str) (here : Token.Pos) → IsAt rest here → IsPlace src file here
  IsAt-IsPlace rest here h = record {
    before = h.before;
    after = rest;
    split = h.split;
    place = h.place;
  }

  IsAt-IsRead :
      (rest : Str) (here : Token.Pos) (r : Read)
      → IsAt rest here
      → IsRead rest here r
      → IsAt r.rest r.here
  IsAt-IsRead rest here r h k = record {
    before = h.before ++ r.lit;
    split = h.split ∙ (ap (λ t. h.before ++ t) k.split ∙ sym (append_assoc h.before r.lit r.rest));
    place =
        k.place
        ∙ (ap (moved_over r.lit) h.place ∙ sym (moved_over-append h.before r.lit (start_of file)));
  }

  pub record Holds (l : Lexer) : Type 0 where
    pub standing : IsAt l.rest l.here
    pub r_body : l.pending_r_body ≡ true → IsPlace src file l.r_body_pos

  -- Falls at every token but the last.
  abbrev pub weight : Lexer → ℕ
  weight l =
      3 * length l.rest + ((if l.in_body then 2 else 0) + (if l.pending_r_body then 1 else 0))

  -- What a call promises that starts where `limit` bounds the bytes left.
  pub record Lexes (limit : ℕ) (out : Token.Token × Lexer) : Type 0 where
    pub place : IsPlace src file out.0.pos
    pub holds : Holds out.1
    pub less : weight out.1 < limit

  -- In code, with bytes left.
  pub record InCode (l : Lexer) : Type 0 where
    pub standing : IsAt l.rest l.here
    pub no_body : l.in_body ≡ false
    pub no_r_body : l.pending_r_body ≡ false

  reads :
      (l : Lexer) (k : Token.Kind) (lit : Str) (r : Read) (depth n : ℕ) (b : Bool)
      → InCode l
      → IsRead l.rest l.here r
      → length r.rest < n
      → Lexes (3 * n) (
        record { kind = k; lit = lit; pos = l.here },
        record (read_to r l) { paren_depth = depth; in_body = b },
      )
  reads l k lit r depth n b h k' less = record {
    place = IsAt-IsPlace l.rest l.here h.standing;
    holds = record {
      standing = IsAt-IsRead l.rest l.here r h.standing k';
      r_body = λ e. cc (e, h.no_r_body);
    };
    less = rw (h.no_r_body) (below b);
  }
    where
      below : (b : Bool) → 3 * length r.rest + ((if b then 2 else 0) + 0) < 3 * n
      below true = omega arith
      below false = omega arith

  advance-shorter :
      (c : ℕ) (s rest : Str) (here : Token.Pos)
      → rest ≡ c ∷ s
      → length (advance rest here).rest < length rest
  unfolding advance
  advance-shorter c s rest here e =
      subst (λ t. length (advance t here).rest < length t) (sym e) (omega arith)

  -- A token of one byte or two.
  one-Lexes :
      (l : Lexer) (c : ℕ) (s : Str) (k : Token.Kind) (lit : Str) (depth : ℕ)
      → InCode l
      → l.rest ≡ c ∷ s
      → Lexes
          (3 * length l.rest)
          ((one k lit l.here l).0, record (one k lit l.here l).1 { paren_depth = depth })
  one-Lexes l c s k lit depth h e =
      reads l k lit (advance l.rest l.here) depth (length l.rest) l.in_body h
        (advance-IsRead l.rest l.here) (advance-shorter c s l.rest l.here e)

  two-Lexes :
      (l : Lexer) (c : ℕ) (s : Str) (k : Token.Kind) (lit : Str) (b : Bool)
      → InCode l
      → l.rest ≡ c ∷ s
      → Lexes
          (3 * length l.rest)
          ((two k lit l.here l).0, record (two k lit l.here l).1 { in_body = b })
  two-Lexes l c s k lit b h e =
      let first = advance l.rest l.here in
      let second = advance-IsRead first.rest first.here in
      reads l k lit (then_read first (advance first.rest first.here)) l.paren_depth (length l.rest)
        b h
        (IsRead-then l.rest l.here first (advance first.rest first.here)
          (advance-IsRead l.rest l.here) second)
        (omega (
          arith,
          advance-shorter c s l.rest l.here e,
          IsRead-shorter first.rest first.here (advance first.rest first.here) second,
        ))

  Lexes-if :
      (n : ℕ) (x y : Token.Token × Lexer) (b : Bool)
      → Lexes n x
      → Lexes n y
      → Lexes n (if b then x else y)
  Lexes-if n x y true hx hy = hx
  Lexes-if n x y false hx hy = hy

  one_or_two-Lexes :
      (l : Lexer) (c : ℕ) (s : Str) (d : ℕ) (longer shorter : Token.Kind) (lit : Str)
      → InCode l
      → l.rest ≡ c ∷ s
      → Lexes (3 * length l.rest) (one_or_two d longer shorter lit l.here l)
  one_or_two-Lexes l c s d longer shorter lit h e =
      Lexes-if (3 * length l.rest) _ _ (byte_at 1 l.rest == d)
        (two-Lexes l c s longer [] l.in_body h e) (one-Lexes l c s shorter lit l.paren_depth h e)

  lex_ident-Lexes :
      (l : Lexer) (c : ℕ) (s : Str)
      → InCode l
      → l.rest ≡ c ∷ s
      → is_ident_start c ≡ true
      → Lexes (3 * length l.rest) (lex_ident l.here l)
  unfolding lex_ident
  lex_ident-Lexes l c s h e starts =
      reads l _ _ (read_while is_ident_part l.rest l.here) l.paren_depth (length l.rest) l.in_body h
        (read_while-IsRead is_ident_part l.rest l.here)
        (subst (λ t. length (read_while is_ident_part t l.here).rest < length t) (sym e)
          (read_while-shorter is_ident_part c s l.here (rw starts refl)))

  lex_number-Lexes :
      (l : Lexer) (c : ℕ) (s : Str)
      → InCode l
      → l.rest ≡ c ∷ s
      → is_digit c ≡ true
      → Lexes (3 * length l.rest) (lex_number l.here l)
  unfolding lex_number
  lex_number-Lexes l c s h e digit =
      let digits = read_while is_digit l.rest l.here in
      let less : length digits.rest < length l.rest =
        subst (λ t. length (read_while is_digit t l.here).rest < length t) (sym e)
          (read_while-shorter is_digit c s l.here digit) in
      reads l _ _ (read_fraction digits).1 l.paren_depth (length l.rest) l.in_body h
        (read_fraction-IsRead l.rest l.here digits (read_while-IsRead is_digit l.rest l.here))
        (omega (arith, read_fraction-shorter digits))

  string_token-Lexes :
      (l : Lexer) (b : Bool) (lit : Str) (r : Read)
      → InCode l
      → IsRead l.rest l.here r
      → length r.rest < length l.rest
      → Lexes (3 * length l.rest) (string_token b (record r { lit = lit }) l.here l)
  string_token-Lexes l true lit r h k less =
      let quote = advance r.rest r.here in
      let closes = advance-IsRead r.rest r.here in
      reads l Token.string lit (then_read r quote) l.paren_depth (length l.rest) l.in_body h
        (IsRead-then l.rest l.here r quote k closes)
        (omega (arith, IsRead-shorter r.rest r.here quote closes))
  string_token-Lexes l false lit r h k less =
      reads l Token.illegal lit r l.paren_depth (length l.rest) l.in_body h k less

  lex_string-Lexes :
      (l : Lexer) (c : ℕ) (s : Str)
      → InCode l
      → l.rest ≡ c ∷ s
      → Lexes (3 * length l.rest) (lex_string l.here l)
  unfolding lex_string
  lex_string-Lexes l c s h e =
      let quote = advance l.rest l.here in
      let inner = read_string quote.rest quote.here in
      let k = read_string-IsRead quote.rest quote.here in
      string_token-Lexes l inner.0 inner.1.lit (then_read quote inner.1) h
        (IsRead-then l.rest l.here quote inner.1 (advance-IsRead l.rest l.here) k)
        (omega (
          arith,
          advance-shorter c s l.rest l.here e,
          IsRead-shorter quote.rest quote.here inner.1 k,
        ))

  lex_operator-Lexes :
      (l : Lexer) (c : ℕ) (s : Str)
      → InCode l
      → l.rest ≡ c ∷ s
      → Lexes (3 * length l.rest) (lex_operator c l.here l)
  unfolding lex_operator
  lex_operator-Lexes l c s h e =
      Lexes-if (3 * length l.rest) _ _ (c == b'=')
        (one_or_two-Lexes l c s b'=' Token.eq Token.assign [] h e)
        (Lexes-if (3 * length l.rest) _ _ (c == b'?')
          (one_or_two-Lexes l c s b'=' Token.q_assign Token.illegal (codes "?") h e)
          (Lexes-if (3 * length l.rest) _ _ (c == b'!')
            (one_or_two-Lexes l c s b'=' Token.neq Token.bang [] h e)
            (Lexes-if (3 * length l.rest) _ _ (c == b'<')
              (one_or_two-Lexes l c s b'=' Token.le Token.lt [] h e)
              (Lexes-if (3 * length l.rest) _ _ (c == b'>')
                (one_or_two-Lexes l c s b'=' Token.ge Token.gt [] h e)
                (Lexes-if (3 * length l.rest) _ _ (c == b'&')
                  (one_or_two-Lexes l c s b'&' Token.and_and Token.illegal (codes "&") h e)
                  (Lexes-if (3 * length l.rest) _ _ (c == b'|')
                    (one_or_two-Lexes l c s b'|' Token.or_or Token.illegal (codes "|") h e)
                    (Lexes-if (3 * length l.rest) _ _ (c == b'+')
                      (one_or_two-Lexes l c s b'=' Token.plus_assign Token.plus [] h e)
                      (Lexes-if (3 * length l.rest) _ _ (c == b'-')
                        (one-Lexes l c s Token.minus [] l.paren_depth h e)
                        (Lexes-if (3 * length l.rest) _ _ (c == b'*')
                          (one_or_two-Lexes l c s b'*' Token.pow Token.star [] h e)
                          (Lexes-if (3 * length l.rest) _ _ (c == b'/')
                            (one-Lexes l c s Token.slash [] l.paren_depth h e)
                            (Lexes-if (3 * length l.rest) _ _ (c == b'%')
                              (one-Lexes l c s Token.percent [] l.paren_depth h e)
                              (Lexes-if (3 * length l.rest) _ _ (c == b'.')
                                (one_or_two-Lexes l c s b'.' Token.dot_dot Token.dot [] h e)
                                (Lexes-if (3 * length l.rest) _ _ (c == b':')
                                  (one-Lexes l c s Token.colon [] l.paren_depth h e)
                                  (Lexes-if (3 * length l.rest) _ _ (c == b';')
                                    (one-Lexes l c s Token.semi [] l.paren_depth h e)
                                    (Lexes-if (3 * length l.rest) _ _ (c == b',')
                                      (one-Lexes l c s Token.comma [] l.paren_depth h e)
                                      (Lexes-if (3 * length l.rest) _ _ (c == b'@')
                                        (one-Lexes l c s Token.at_sign [] l.paren_depth h e)
                                        (Lexes-if (3 * length l.rest) _ _ (c == b'^')
                                          (one-Lexes l c s Token.caret [] l.paren_depth h e)
                                          (Lexes-if (3 * length l.rest) _ _ (c == b'(')
                                            (one-Lexes l c s Token.l_paren [] (suc l.paren_depth) h
                                              e)
                                            (Lexes-if (3 * length l.rest) _ _ (c == b')')
                                              (one-Lexes l c s Token.r_paren [] (l.paren_depth - 1)
                                                h e)
                                              (Lexes-if (3 * length l.rest) _ _ (c == b'[')
                                                (one-Lexes l c s Token.l_brack []
                                                  (suc l.paren_depth) h e)
                                                (Lexes-if (3 * length l.rest) _ _ (c == b']')
                                                  (one-Lexes l c s Token.r_brack []
                                                    (l.paren_depth - 1) h e)
                                                  (Lexes-if (3 * length l.rest) _ _ (c == b'{')
                                                    (Lexes-if (3 * length l.rest) _ _
                                                      (byte_at 1 l.rest == b'{')
                                                      (two-Lexes l c s Token.l_body (codes "{{")
                                                        true h e)
                                                      (one-Lexes l c s Token.l_brace []
                                                        l.paren_depth h e))
                                                    (Lexes-if (3 * length l.rest) _ _ (c == b'}')
                                                      (one-Lexes l c s Token.r_brace []
                                                        l.paren_depth h e)
                                                      (one-Lexes l c s Token.illegal
                                                        (string_of_byte c) l.paren_depth h
                                                        e))))))))))))))))))))))))

  -- A call of `Next`, or of a part of it, that returns.
  abbrev pub Returns : ℕ → Option (Token.Token × Lexer) → Type 0
  Returns limit none = ⊥
  Returns limit (some (t, l)) = (t.kind ≡ Token.eof × IsPlace src file t.pos) ⊎ Lexes limit (t, l)

  pub Returns-if :
      (n : ℕ) (x y : Option (Token.Token × Lexer)) (b : Bool)
      → (b ≡ true → Returns n x)
      → (b ≡ false → Returns n y)
      → Returns n (if b then x else y)
  Returns-if n x y true hx hy = hx refl
  Returns-if n x y false hx hy = hy refl

  lex_at-Returns :
      (l : Lexer) (c : ℕ) (s : Str) (again : Option (Token.Token × Lexer))
      → InCode l
      → l.rest ≡ c ∷ s
      → Returns (3 * length l.rest) again
      → Returns (3 * length l.rest) (lex_at c again l)
  unfolding lex_at
  lex_at-Returns l c s again h e k =
      let n = 3 * length l.rest in
      Returns-if n _ _ (c == newline_byte)
        (λ _.
          Returns-if n again _ (ltb 0 l.paren_depth) (λ _. k)
            (λ _. inr (one-Lexes l c s Token.newline [] l.paren_depth h e)))
        (λ _.
          Returns-if n _ _ (is_ident_start c) (λ i. inr (lex_ident-Lexes l c s h e i))
            (λ _.
              Returns-if n _ _ (is_digit c) (λ d. inr (lex_number-Lexes l c s h e d))
                (λ _.
                  Returns-if n _ _ (c == b'"') (λ _. inr (lex_string-Lexes l c s h e))
                    (λ _. inr (lex_operator-Lexes l c s h e)))))

  pub Returns-le : (m n : ℕ) (x : Option (Token.Token × Lexer)) → m ≤ n → Returns m x → Returns n x
  Returns-le m n none le h = h
  Returns-le m n (some (t, l)) le (inl h) = inl h
  Returns-le m n (some (t, l)) le (inr h) =
      inr (record { place = h.place; holds = h.holds; less = omega (arith, h.less) })

  read_to-InCode : (l : Lexer) (r : Read) → InCode l → IsRead l.rest l.here r → InCode (read_to r l)
  read_to-InCode l r h k = record {
    standing = IsAt-IsRead l.rest l.here r h.standing k;
    no_body = h.no_body;
    no_r_body = h.no_r_body;
  }

  lex_rest-Returns :
      (l : Lexer) (rest : Str) (again : Lexer → Option (Token.Token × Lexer))
      → InCode l
      → l.rest ≡ rest
      → ((l' : Lexer)
          → InCode l'
          → length l'.rest < length l.rest
          → Returns (3 * length l'.rest) (again l'))
      → Returns (3 * length l.rest) (lex_rest rest again l)
  lex_rest-Returns l [] again h e ih = inl (refl, IsAt-IsPlace l.rest l.here h.standing)
  lex_rest-Returns l (c ∷ s) again h e ih =
      let after = read_to (advance l.rest l.here) l in
      let less = advance-shorter c s l.rest l.here e in
      lex_at-Returns l c s (again after) h e (
        Returns-le (3 * length after.rest) (3 * length l.rest) (again after) (omega arith) (
          ih after (read_to-InCode l (advance l.rest l.here) h (advance-IsRead l.rest l.here))
            less))

  pub lex_code-Returns :
      (fuel : ℕ) (l : Lexer)
      → InCode l
      → length l.rest < fuel
      → Returns (3 * length l.rest) (lex_code fuel l)
  unfolding lex_code
  lex_code-Returns zero l h more = absurd (omega arith)
  lex_code-Returns (suc fuel) l h more =
      let r = skip_from false l.rest l.here in
      let k = skip_from-IsRead false l.rest l.here in
      let less = IsRead-shorter l.rest l.here r k in
      Returns-le (3 * length r.rest) (3 * length l.rest) _ (omega arith) (
        lex_rest-Returns (read_to r l) r.rest (lex_code fuel) (read_to-InCode l r h k) refl
          (λ l' h' shorter. lex_code-Returns fuel l' h' (omega arith)))
