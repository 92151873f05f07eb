-- ===== src/Syntax/Lexer/Stream.antt =====
-- The bodies and the stream of tokens: `lexBody`, `Next` and `Tokenize`.
use cgpipe.Prelude.{
  ℕ, zero, suc, ◌+◌, ◌*◌, ◌<◌, ◌≤◌, List, [], ◌∷◌, ◌++◌, Bool, true, false, Option, none, some,
  nat_eq, list_eq, if◌then◌else◌, ◌==◌, length, length-append, append_assoc, ◌≡◌, ◌≢◌, refl, sym,
  ap, ◌∙◌, inl, inr, arith, All,
}
use cgpipe.Text.{Str}
use cgpipe.Syntax.Token
use cgpipe.Syntax.Token.{kind_eq, kind_beq_iff}
use cgpipe.Syntax.Lexer.{
  Lexer, start_of, new, Read, Body, read_to, read_line, read_body, lex_body, next, tokens_from,
  tokenize, closes, behind, body_rest, body_token, tokens_behind, onto_tokens,
}
use cgpipe.Syntax.Lexer.Reads.{
  moved_over, moved_over-append, IsRead, read_line-IsRead, read_line-shorter,
}
use cgpipe.Syntax.Lexer.Places.{
  IsPlace, IsAt, Holds, weight, Returns, Returns-le, Returns-if, lex_code-Returns, IsAt-IsPlace,
}

-- A body, and the closing line behind it, as read from the front of `s`.
record IsBody (s : Str) (p : Token.Pos) (b : Body) : Type 0 where
  line : Str
  split : s ≡ b.read.lit ++ (line ++ b.read.rest)
  place : b.read.here ≡ moved_over line (moved_over b.read.lit p)
  closing : (q : Token.Pos) → b.close ≡ some q → q ≡ moved_over b.read.lit p

abbrev Bodies : Str → Token.Pos → Option Body → Type 0
Bodies s p none = ⊥
Bodies s p (some b) = IsBody s p b

behind-Bodies :
    (s : Str) (p : Token.Pos) (r : Read) (b : Option Body)
    → IsRead s p r
    → Bodies r.rest r.here b
    → Bodies s p (behind r.lit b)
behind-Bodies s p r none h k = k
behind-Bodies s p r (some b) h k =
    let here : moved_over b.read.lit r.here ≡ moved_over (r.lit ++ b.read.lit) p =
      ap (moved_over b.read.lit) h.place ∙ sym (moved_over-append r.lit b.read.lit p) in
    record {
      line = k.line;
      split =
          h.split
          ∙ (ap (λ t. r.lit ++ t) k.split
              ∙ sym (append_assoc r.lit b.read.lit (k.line ++ b.read.rest)));
      place = k.place ∙ ap (moved_over k.line) here;
      closing = λ q e. k.closing q e ∙ here;
    }

Bodies-if :
    (s : Str) (p : Token.Pos) (x y : Option Body) (b : Bool)
    → Bodies s p x
    → Bodies s p y
    → Bodies s p (if b then x else y)
Bodies-if s p x y true hx hy = hx
Bodies-if s p x y false hx hy = hy

body_rest-Bodies :
    (s : Str) (p : Token.Pos) (again : Str → Token.Pos → Option Body)
    → ((s' : Str) (p' : Token.Pos) → length s' < length s → Bodies s' p' (again s' p'))
    → Bodies s p (body_rest s p again)
unfolding moved_over
body_rest-Bodies [] p again ih = record {
  line = [];
  split = refl;
  place = refl;
  closing = λ q e. cc e;
}
body_rest-Bodies (c ∷ s) p again ih =
    let line = read_line (c ∷ s) p in
    let h = read_line-IsRead (c ∷ s) p in
    Bodies-if (c ∷ s) p _ _ (closes line.lit)
      (record { line = line.lit; split = h.split; place = h.place; closing = λ q e. cc e })
      (behind-Bodies (c ∷ s) p line (again line.rest line.here) h
        (ih line.rest line.here (read_line-shorter c s p)))

read_body-Bodies :
    (fuel : ℕ) (s : Str) (p : Token.Pos) → length s < fuel → Bodies s p (read_body fuel s p)
unfolding read_body
read_body-Bodies zero s p h = absurd (omega arith)
read_body-Bodies (suc fuel) s p h =
    body_rest-Bodies s p (read_body fuel) λ s' p' less. read_body-Bodies fuel s' p' (omega arith)

module _ (src file : Str) where
  length-IsBody :
      (s : Str) (p : Token.Pos) (b : Body) → IsBody s p b → length b.read.rest ≤ length s
  length-IsBody s p b h = omega (
    arith,
    ap length h.split,
    length-append b.read.lit (h.line ++ b.read.rest),
    length-append h.line b.read.rest,
  )

  IsAt-IsBody :
      (s : Str) (p : Token.Pos) (b : Body)
      → IsAt src file s p
      → IsBody s p b
      → IsAt src file b.read.rest b.read.here
  IsAt-IsBody s p b h k = record {
    before = h.before ++ (b.read.lit ++ k.line);
    split =
        h.split
        ∙ (ap (λ t. h.before ++ t) (k.split ∙ sym (append_assoc b.read.lit k.line b.read.rest))
            ∙ sym (append_assoc h.before (b.read.lit ++ k.line) b.read.rest));
    place =
        k.place
        ∙ (sym (moved_over-append b.read.lit k.line p)
            ∙ (ap (moved_over (b.read.lit ++ k.line)) h.place
                ∙ sym (moved_over-append h.before (b.read.lit ++ k.line) (start_of file))));
  }

  IsPlace-closing :
      (s : Str) (p q : Token.Pos) (b : Body)
      → IsAt src file s p
      → IsBody s p b
      → b.close ≡ some q
      → IsPlace src file q
  IsPlace-closing s p q b h k e = record {
    before = h.before ++ b.read.lit;
    after = k.line ++ b.read.rest;
    split =
        h.split
        ∙ (ap (λ t. h.before ++ t) k.split
            ∙ sym (append_assoc h.before b.read.lit (k.line ++ b.read.rest)));
    place =
        k.closing q e
        ∙ (ap (moved_over b.read.lit) h.place
            ∙ sym (moved_over-append h.before b.read.lit (start_of file)));
  }

  body_token-Returns :
      (l : Lexer) (x : Option Body)
      → IsAt src file l.rest l.here
      → l.pending_r_body ≡ false
      → l.in_body ≡ true
      → Bodies l.rest l.here x
      → Returns src file (weight src file l) (body_token l.here l x)
  body_token-Returns l none h off on k = k
  body_token-Returns l (some b) h off on k = by_close b.close refl
    where
      by_close :
          (q : Option Token.Pos)
          → b.close ≡ q
          → Returns src file (weight src file l) (elim q [
            | none ↦ some (
              record { kind = Token.body; lit = b.read.lit; pos = l.here },
              record (read_to b.read l) { in_body = false },
            )
            | some p ↦ some (
              record { kind = Token.body; lit = b.read.lit; pos = l.here },
              record (read_to b.read l) { in_body = false; pending_r_body = true; r_body_pos = p },
            )
          ])
      by_close none e = inr (record {
        place = IsAt-IsPlace src file l.rest l.here h;
        holds = record { standing = IsAt-IsBody l.rest l.here b h k; r_body = λ e'. cc (e', off) };
        less = rw (off, on) (omega (arith, length-IsBody l.rest l.here b k));
      })
      by_close (some q) e = inr (record {
        place = IsAt-IsPlace src file l.rest l.here h;
        holds = record {
          standing = IsAt-IsBody l.rest l.here b h k;
          r_body = λ _. IsPlace-closing l.rest l.here q b h k e;
        };
        less = rw (off, on) (omega (arith, length-IsBody l.rest l.here b k));
      })

  weight_code : (l : Lexer) → 3 * length l.rest ≤ weight src file l
  weight_code l = omega arith

  weight_pending :
      (l : Lexer)
      → l.pending_r_body ≡ true
      → weight src file (record l { pending_r_body = false }) < weight src file l
  weight_pending l on = ground arith

  next-Returns : (l : Lexer) → Holds src file l → Returns src file (weight src file l) (next l)
  unfolding next lex_body
  next-Returns l h =
      Returns-if src file (weight src file l) _ _ l.pending_r_body
        (λ on. inr (record {
          place = h.r_body on;
          holds = record { standing = h.standing; r_body = λ e. cc e };
          less = weight_pending l on;
        }))
        (λ off.
          Returns-if src file (weight src file l) _ _ l.in_body
            (λ on.
              body_token-Returns l _ h.standing off on
                (read_body-Bodies (suc (length l.rest)) l.rest l.here (omega arith)))
            (λ code. Returns-le src file (3 * length l.rest) (weight src file l) _ (weight_code l) (
              lex_code-Returns src file (suc (length l.rest)) l
                (record { standing = h.standing; no_body = code; no_r_body = off }) (omega arith))))

  -- The tokens end at the first EOF.
  abbrev pub EndsAtEof : List Token.Token → Type 0
  EndsAtEof [] = ⊥
  EndsAtEof (t ∷ []) = t.kind ≡ Token.eof
  EndsAtEof (t ∷ u ∷ ts) = (t.kind ≢ Token.eof) × EndsAtEof (u ∷ ts)

  abbrev pub Stands : Token.Token → Type 0
  Stands t = IsPlace src file t.pos

  abbrev Streams : Option (List Token.Token) → Type 0
  Streams none = ⊥
  Streams (some ts) = All Stands ts × EndsAtEof ts

  EndsAtEof-cons :
      (t : Token.Token) (ts : List Token.Token)
      → t.kind ≢ Token.eof
      → EndsAtEof ts
      → EndsAtEof (t ∷ ts)
  EndsAtEof-cons t [] ne h = absurd h
  EndsAtEof-cons t (u ∷ ts) ne h = (ne, h)

  onto_tokens-Streams :
      (t : Token.Token) (ts : Option (List Token.Token))
      → Stands t
      → t.kind ≢ Token.eof
      → Streams ts
      → Streams (onto_tokens t ts)
  onto_tokens-Streams t none here ne h = h
  onto_tokens-Streams t (some ts) here ne h = ((here, h.0), EndsAtEof-cons t ts ne h.1)

  Streams-if :
      (x y : Option (List Token.Token)) (b : Bool)
      → (b ≡ true → Streams x)
      → (b ≡ false → Streams y)
      → Streams (if b then x else y)
  Streams-if x y true hx hy = hx refl
  Streams-if x y false hx hy = hy refl

  tokens_behind-Streams :
      (n : ℕ) (out : Option (Token.Token × Lexer)) (again : Lexer → Option (List Token.Token))
      → Returns src file n out
      → ((l : Lexer) → Holds src file l → weight src file l < n → Streams (again l))
      → Streams (tokens_behind out again)
  tokens_behind-Streams n none again h ih = absurd h
  tokens_behind-Streams n (some (t, l)) again (inl h) ih =
      Streams-if _ _ (t.kind == Token.eof) (λ e. ((h.1, tt), h.0))
        (λ e. cc ((kind_beq_iff t.kind Token.eof).1 h.0, e))
  tokens_behind-Streams n (some (t, l)) again (inr h) ih =
      Streams-if _ _ (t.kind == Token.eof)
        (λ e. ((h.place, tt), (kind_beq_iff t.kind Token.eof).0 e))
        (λ e.
          onto_tokens-Streams t (again l) h.place (λ q. cc ((kind_beq_iff t.kind Token.eof).1 q, e))
            (ih l h.holds h.less))

  tokens_from-Streams :
      (fuel : ℕ) (l : Lexer)
      → Holds src file l
      → weight src file l < fuel
      → Streams (tokens_from fuel l)
  unfolding tokens_from
  tokens_from-Streams zero l h more = absurd (omega arith)
  tokens_from-Streams (suc fuel) l h more =
      tokens_behind-Streams (weight src file l) (next l) (tokens_from fuel) (next-Returns l h)
        λ l' h' less. tokens_from-Streams fuel l' h' (omega arith)

  streamed :
      (x : Option (List Token.Token))
      → Streams x
      → (ts : List Token.Token) × (x ≡ some ts) × All Stands ts × EndsAtEof ts
  streamed none h = absurd h
  streamed (some ts) h = (ts, refl, h.0, h.1)

  new-Holds : Holds src file (new src file)
  unfolding moved_over
  new-Holds = record {
    standing = record { before = []; split = refl; place = refl };
    r_body = λ e. cc e;
  }

  -- `Tokenize` returns on every source, bodies left open and stray bytes included; its tokens end at
  -- the first EOF, and each stands at the position behind some front of the source.
  pub tokenize_lem :
      (ts : List Token.Token) × (tokenize src file ≡ some ts) × All Stands ts × EndsAtEof ts
  unfolding tokenize
  tokenize_lem =
      streamed _ (tokens_from-Streams (3 * length src + 1) (new src file) new-Holds (omega arith))
