-- ===== src/Syntax/Lexer/Reads.antt =====
-- The loops of the lexer: what they read is the front of what was left, and the position keeps up.
use cgpipe.Prelude.{
  ℕ, ◌+◌, ◌<◌, ◌≤◌, [], ◌∷◌, ◌++◌, Bool, true, false, not, ◌&&◌, nat_eq, list_eq, if◌then◌else◌,
  ◌==◌, length, length-append, append_assoc, ◌≡◌, refl, sym, ap, ◌∙◌, inl, inr, Bool-cases, arith,
}
use cgpipe.Text.{Str}
use cgpipe.Syntax.Token
use cgpipe.Syntax.Lexer.{
  newline_byte, is_digit, is_inline_space, Read, nothing, onto, then_read, moved, advance,
  read_while, skip_from, read_fraction, read_string, read_line, byte_at,
}

-- The position behind a text.
unfoldable pub moved_over : Str → Token.Pos → Token.Pos
moved_over [] p = p
moved_over (c ∷ s) p = moved_over s (moved c p)

pub moved_over-append :
    (s t : Str) (p : Token.Pos) → moved_over (s ++ t) p ≡ moved_over t (moved_over s p)
unfolding moved_over
moved_over-append [] t p = refl
moved_over-append (c ∷ s) t p = moved_over-append s t (moved c p)

-- What was read, and what is left of it.
pub record IsRead (s : Str) (p : Token.Pos) (r : Read) : Type 0 where
  pub split : s ≡ r.lit ++ r.rest
  pub place : r.here ≡ moved_over r.lit p

pub IsRead-nothing : (s : Str) (p : Token.Pos) → IsRead s p (nothing s p)
unfolding moved_over
IsRead-nothing s p = record { split = refl; place = refl }

pub IsRead-onto :
    (c : ℕ) (s : Str) (p : Token.Pos) (r : Read)
    → IsRead s (moved c p) r
    → IsRead (c ∷ s) p (onto c r)
unfolding moved_over
IsRead-onto c s p r h = record { split = ap (λ t. c ∷ t) h.split; place = h.place }

pub IsRead-if :
    (b : Bool) (s : Str) (p : Token.Pos) (r t : Read)
    → IsRead s p r
    → IsRead s p t
    → IsRead s p (if b then r else t)
IsRead-if true s p r t h k = h
IsRead-if false s p r t h k = k

pub IsRead-then :
    (s : Str) (p : Token.Pos) (r t : Read)
    → IsRead s p r
    → IsRead r.rest r.here t
    → IsRead s p (then_read r t)
IsRead-then s p r t h k = record {
  split = h.split ∙ (ap (λ x. r.lit ++ x) k.split ∙ sym (append_assoc r.lit t.lit t.rest));
  place = k.place ∙ (ap (moved_over t.lit) h.place ∙ sym (moved_over-append r.lit t.lit p));
}

pub advance-IsRead : (s : Str) (p : Token.Pos) → IsRead s p (advance s p)
unfolding advance moved_over
advance-IsRead [] p = record { split = refl; place = refl }
advance-IsRead (c ∷ s) p = record { split = refl; place = refl }

pub read_while-IsRead :
    (test : ℕ → Bool) (s : Str) (p : Token.Pos) → IsRead s p (read_while test s p)
unfolding read_while
read_while-IsRead test [] p = IsRead-nothing [] p
read_while-IsRead test (c ∷ s) p =
    IsRead-if (test c) (c ∷ s) p _ _ (IsRead-onto c s p _ (read_while-IsRead test s (moved c p)))
      (IsRead-nothing (c ∷ s) p)

pub skip_from-IsRead : (inside : Bool) (s : Str) (p : Token.Pos) → IsRead s p (skip_from inside s p)
unfolding skip_from
skip_from-IsRead inside [] p = IsRead-nothing [] p
skip_from-IsRead true (c ∷ s) p =
    IsRead-if (c == newline_byte) (c ∷ s) p _ _ (IsRead-nothing (c ∷ s) p)
      (IsRead-onto c s p _ (skip_from-IsRead true s (moved c p)))
skip_from-IsRead false (c ∷ s) p =
    IsRead-if (is_inline_space c) (c ∷ s) p _ _
      (IsRead-onto c s p _ (skip_from-IsRead false s (moved c p)))
      (IsRead-if (c == b'#') (c ∷ s) p _ _
        (IsRead-onto c s p _ (skip_from-IsRead true s (moved c p))) (IsRead-nothing (c ∷ s) p))

-- The part of `read_fraction` that reads.
pub read_fraction-IsRead :
    (s : Str) (p : Token.Pos) (r : Read) → IsRead s p r → IsRead s p (read_fraction r).1
unfolding read_fraction
read_fraction-IsRead s p r h =
    elim (Bool-cases (
      byte_at 0 r.rest == b'.'
      && (not (byte_at 1 r.rest == b'.') && is_digit (byte_at 1 r.rest)))) [
        | inr e ↦ rw e h
        | inl e ↦
            let dot = advance r.rest r.here in
            let more = read_while is_digit dot.rest dot.here in
            rw e (
              IsRead-then s p r (then_read dot more) h (
                IsRead-then r.rest r.here dot more (advance-IsRead r.rest r.here)
                  (read_while-IsRead is_digit dot.rest dot.here)))
      ]

IsRead-pair :
    (b : Bool) (s : Str) (p : Token.Pos) (x y : Bool × Read)
    → IsRead s p x.1
    → IsRead s p y.1
    → IsRead s p (if b then x else y).1
IsRead-pair true s p x y h k = h
IsRead-pair false s p x y h k = k

pub read_string-IsRead : (s : Str) (p : Token.Pos) → IsRead s p (read_string s p).1
unfolding read_string
read_string-IsRead [] p = IsRead-nothing [] p
read_string-IsRead (c ∷ []) p = IsRead-pair (c == b'"') (c ∷ []) p _ _ (IsRead-nothing (c ∷ []) p) (
    IsRead-pair (c == newline_byte) (c ∷ []) p _ _ (IsRead-nothing (c ∷ []) p)
      (IsRead-onto c [] p _ (IsRead-nothing [] (moved c p))))
read_string-IsRead (c ∷ d ∷ s) p =
    IsRead-pair (c == 92) (c ∷ d ∷ s) p _ _
      (IsRead-onto c (d ∷ s) p _
        (IsRead-onto d s (moved c p) _ (read_string-IsRead s (moved d (moved c p)))))
      (IsRead-pair (c == b'"') (c ∷ d ∷ s) p _ _ (IsRead-nothing (c ∷ d ∷ s) p) (
        IsRead-pair (c == newline_byte) (c ∷ d ∷ s) p _ _ (IsRead-nothing (c ∷ d ∷ s) p)
          (IsRead-onto c (d ∷ s) p _ (read_string-IsRead (d ∷ s) (moved c p)))))

pub read_line-IsRead : (s : Str) (p : Token.Pos) → IsRead s p (read_line s p)
unfolding read_line
read_line-IsRead [] p = IsRead-nothing [] p
read_line-IsRead (c ∷ s) p =
    IsRead-if (c == newline_byte) (c ∷ s) p _ _ (IsRead-onto c s p _ (IsRead-nothing s (moved c p)))
      (IsRead-onto c s p _ (read_line-IsRead s (moved c p)))

pub length-IsRead :
    (s : Str) (p : Token.Pos) (r : Read) → IsRead s p r → length s ≡ length r.lit + length r.rest
length-IsRead s p r h = ap length h.split ∙ length-append r.lit r.rest

-- A loop that reads the first byte leaves less.
pub onto-shorter :
    (c : ℕ) (s : Str) (p : Token.Pos) (r : Read)
    → IsRead s (moved c p) r
    → length r.rest < length (c ∷ s)
onto-shorter c s p r h = omega (arith, length-IsRead s (moved c p) r h)

pub read_while-shorter :
    (test : ℕ → Bool) (c : ℕ) (s : Str) (p : Token.Pos)
    → test c ≡ true
    → length (read_while test (c ∷ s) p).rest < length (c ∷ s)
unfolding read_while
read_while-shorter test c s p e =
    rw e (onto-shorter c s p (read_while test s (moved c p)) (read_while-IsRead test s (moved c p)))

shorter_if :
    (b : Bool) (n : ℕ) (r t : Read)
    → length r.rest < n
    → length t.rest < n
    → length (if b then r else t).rest < n
shorter_if true n r t h k = h
shorter_if false n r t h k = k

pub read_line-shorter :
    (c : ℕ) (s : Str) (p : Token.Pos) → length (read_line (c ∷ s) p).rest < length (c ∷ s)
unfolding read_line
read_line-shorter c s p =
    shorter_if (c == newline_byte) (length (c ∷ s)) _ _ (omega arith)
      (onto-shorter c s p (read_line s (moved c p)) (read_line-IsRead s (moved c p)))

pub IsRead-shorter : (s : Str) (p : Token.Pos) (r : Read) → IsRead s p r → length r.rest ≤ length s
IsRead-shorter s p r h = omega (arith, length-IsRead s p r h)

pub read_fraction-shorter : (r : Read) → length (read_fraction r).1.rest ≤ length r.rest
unfolding read_fraction
read_fraction-shorter r =
    elim (Bool-cases (
      byte_at 0 r.rest == b'.'
      && (not (byte_at 1 r.rest == b'.') && is_digit (byte_at 1 r.rest)))) [
        | inr e ↦ rw e (omega arith)
        | inl e ↦
            let dot = advance r.rest r.here in
            rw e (
              omega (
                arith,
                IsRead-shorter r.rest r.here dot (advance-IsRead r.rest r.here),
                IsRead-shorter dot.rest dot.here (read_while is_digit dot.rest dot.here)
                    (read_while-IsRead is_digit dot.rest dot.here),
              ))
      ]
