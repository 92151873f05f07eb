-- ===== src/Syntax/Simple/Scans.antt =====
-- What the scans and the helpers of the statements leave of the tokens before the EOF.
use cgpipe.Prelude.{
  ℕ, ◌-◌, Bool, true, false, ◌||◌, Option, none, some, nat_eq, if◌then◌else◌, ◌==◌, ◌≡◌, ◌≢◌, ◌⊎◌,
  inl, inr, refl, sym, ap, ◌∙◌, subst, arith,
}
use cgpipe.Text.{Str, trim_space}
use cgpipe.Exec.{fail, gets, ◌>>=◌}
use cgpipe.Exec.Triple.{
  Triple, triple_pure, triple_fail, triple_gets, triple_pre, triple_given, triple_if, triple_never,
  triple_bind, triple_modify,
}
use cgpipe.Syntax.Token
use cgpipe.Syntax.Token.{kind_eq, kind_beq_iff}
use cgpipe.Syntax.Cursor.{Toks, last, ahead, cur, out_of_range, failed, Problem, Parser, advance}
use cgpipe.Syntax.Parser.Reads.{Within, Never, Reads, Reads-to, advanced-Within, expect-Reads}
use cgpipe.Syntax.Words.{decl_words}
use cgpipe.Syntax.Lookahead.{
  Depth, no_depth, flat, depth_behind, scan, colon_here, colon_found, find_colon, end_here,
  end_found, last_of, scan_decl_end,
}
use cgpipe.Syntax.Targets.{
  is_stmt_end, at_stmt_end, is_assign_op, source, parse_body, name_end, move_to, dotted_name,
  to_assign_op, op_found, words_to_end, body_if,
}

-- There are tokens before the EOF.
abbrev pub Live : ℕ → Toks → Type 0
Live n s = Within n s × ((cur s).kind ≢ Token.eof)

module _ {A B : Type 0} {P : Toks → Type 0} {Q : B → Toks → Type 0} where
  -- What is read of the state changes nothing.
  pub reading :
      (f : Toks → A) {k : A → Parser B}
      → ((a : A) → Triple P (k a) Q Never)
      → Triple P (gets f >>= k) Q Never
  reading f h = triple_bind (triple_gets {Q = λ _. P} f λ s p. p) h

-- The tokens that are kept to go back to.
pub saving :
    {A : Type 0} {k : Toks → Parser A} (n m : ℕ)
    → ((save : Toks) → Within n save → Reads n (k save) m)
    → Reads n (gets (λ s. s) >>= k) m
saving n m h =
    triple_bind (triple_gets {Q = λ save s. Within n save × Within n s} (λ s. s) λ s w. (w, w))
      λ save. triple_given (λ s w. w.0) λ w. triple_pre (λ s v. v.1) (h save w)

pub choose :
    {A : Type 0} {P : Toks → Type 0} {Q : A → Toks → Type 0} {x y : Parser A} (b : Bool)
    → Triple P x Q Never
    → Triple P y Q Never
    → Triple P (if b then x else y) Q Never
choose b x y = triple_if b (λ _. x) (λ _. y)

pub deny :
    {A : Type 0} {P : Toks → Type 0} {Q : A → Toks → Type 0} (p : Token.Pos) (q : Problem)
    → Triple P (fail (failed p q)) Q Never
deny p q = triple_pre (λ s w e. cc e) (triple_fail (failed p q))

pub source-keeps :
    {P : Toks → Type 0} (src : Str) (from to : ℕ) → Triple P (source src from to) (λ _. P) Never
unfolding source
source-keeps src from to =
    choose _ (triple_pure _) (triple_pre (λ s w e. cc e) (triple_fail out_of_range))

pub advance-Live : (n : ℕ) → Triple (Live n) advance (λ _. Within (n - 1)) Never
unfolding advance
advance-Live n = record { at = λ s h. advanced-Within n s h.0 h.1 }

pub at_stmt_end-Reads : (n : ℕ) → Reads n at_stmt_end n
unfolding at_stmt_end
at_stmt_end-Reads n = triple_gets _ λ s h. h

-- A scan that stops within the tokens before the EOF.
abbrev Moved : {A : Type 0} → ℕ → Option (A × Toks) → Type 0
Moved n none = ⊥
Moved n (some (a, ts)) = Within n ts

Moved-if :
    {A : Type 0} (n : ℕ) (b : Bool) (x y : Option (A × Toks))
    → (b ≡ true → Moved n x)
    → (b ≡ false → Moved n y)
    → Moved n (if b then x else y)
Moved-if n true x y hx hy = hx refl
Moved-if n false x y hx hy = hy refl

Moved-to :
    {A : Type 0} (n : ℕ) (x : Option (A × Toks))
    → Triple (λ s. Moved n x) (move_to x) (λ _. Within n) Never
Moved-to n none = triple_never λ s h. h
Moved-to n (some (a, ts)) =
    triple_bind (triple_modify (Within n) (λ _. ts) λ s p. p) λ _. triple_pure a

moving :
    {A : Type 0} (n : ℕ) (g : Toks → Option (A × Toks))
    → ((s : Toks) → Within n s → Moved n (g s))
    → Reads n (gets g >>= move_to) n
moving n g h = triple_bind (triple_gets {Q = λ x _. Moved n x} g h) (Moved-to n)

name_end-Moved : (n : ℕ) (s : Toks) (end : ℕ) → Within n s → Moved n (name_end end s)
unfolding name_end
name_end-Moved n (last t) end h =
    Moved-if n (is_stmt_end t.kind) _ _ (λ _. h) (λ e. cc (e, ap is_stmt_end h.0))
name_end-Moved n (ahead t ts) end h =
    Moved-if n (is_stmt_end t.kind) _ _ (λ _. h)
      (λ _. name_end-Moved n ts _ (h.0, omega (arith, h.1)))

pub dotted_name-Reads : (src : Str) (n : ℕ) → Reads n (dotted_name src) n
unfolding dotted_name
dotted_name-Reads src n = reading cur λ t.
    triple_bind (moving n (name_end t.pos.off) (λ s. name_end-Moved n s t.pos.off))
      λ end. triple_bind (source-keeps src t.pos.off end) λ text. triple_pure (trim_space text)

abbrev Stopped : ℕ → Option (Toks × Bool) → Type 0
Stopped n none = ⊥
Stopped n (some e) = Within n e.0

Stopped-if :
    (n : ℕ) (b : Bool) (x y : Option (Toks × Bool))
    → (b ≡ true → Stopped n x)
    → (b ≡ false → Stopped n y)
    → Stopped n (if b then x else y)
Stopped-if n true x y hx hy = hx refl
Stopped-if n false x y hx hy = hy refl

to_assign_op-Stopped : (n : ℕ) (s : Toks) → Within n s → Stopped n (to_assign_op s)
unfolding to_assign_op
to_assign_op-Stopped n (last t) h =
    Stopped-if n (is_assign_op t.kind) _ _ (λ _. h)
      λ _.
        Stopped-if n (t.kind == Token.newline || t.kind == Token.eof) _ _ (λ _. h)
          λ e. cc (e, ap (λ k. k == Token.newline || k == Token.eof) h.0)
to_assign_op-Stopped n (ahead t ts) h =
    Stopped-if n (is_assign_op t.kind) _ _ (λ _. h)
      λ _.
        Stopped-if n (t.kind == Token.newline || t.kind == Token.eof) _ _ (λ _. h)
          λ _. to_assign_op-Stopped n ts (h.0, omega (arith, h.1))

op_found-Moved : (n : ℕ) (x : Option (Toks × Bool)) → Stopped n x → Moved n (op_found x)
op_found-Moved n none h = h
op_found-Moved n (some e) h = h

to_assign_op-Moved : (n : ℕ) (s : Toks) → Within n s → Moved n (op_found (to_assign_op s))
to_assign_op-Moved n s h = op_found-Moved n _ (to_assign_op-Stopped n s h)

pub to_assign_op-Reads : (n : ℕ) → Reads n (gets (λ s. op_found (to_assign_op s)) >>= move_to) n
to_assign_op-Reads n = moving n _ (to_assign_op-Moved n)

pub parse_body-Reads : (n : ℕ) → Reads n parse_body n
unfolding parse_body
parse_body-Reads n = triple_bind (expect-Reads n Token.l_body λ e. cc e) λ t.
    triple_bind (expect-Reads (n - 1) Token.body λ e. cc e) λ raw.
      triple_bind (Reads-to (omega arith) (expect-Reads (n - 1 - 1) Token.r_body λ e. cc e))
        λ _. triple_pure _

pub body_if-Reads : (n : ℕ) (b : Bool) → Reads n (body_if b) n
unfolding body_if
body_if-Reads n b =
    choose b (triple_bind (parse_body-Reads n) λ body. triple_pure _) (triple_pure _)

abbrev Found : ℕ → Option (Toks × Bool) → Type 0
Found n none = Unit
Found n (some e) = Within n e.0

end_here-Found :
    (n : ℕ) (k : Token.Kind) (b : Bool) (s : Toks) → Within n s → Found n (end_here k b s)
end_here-Found n Token.l_body true s h = h
end_here-Found n Token.newline true s h = h
end_here-Found n Token.semi true s h = h
end_here-Found n Token.eof true s h = h
end_here-Found n Token.l_body false s h = tt
end_here-Found n Token.newline false s h = tt
end_here-Found n Token.semi false s h = tt
end_here-Found n Token.eof false s h = tt
end_here-Found n _ b s h = tt

or_behind-Found :
    (n : ℕ) (x y : Option (Toks × Bool))
    → Found n x
    → Found n y
    → Found n (elim x [ some a ↦ some a | none ↦ y ])
or_behind-Found n none y hx hy = hy
or_behind-Found n (some a) y hx hy = hx

scan-Found : (n : ℕ) (d : Depth) (s : Toks) → Within n s → Found n (scan end_here d s)
unfolding scan
scan-Found n d (last t) h = end_here-Found n t.kind (flat d) (last t) h
scan-Found n d (ahead t ts) h =
    or_behind-Found n (end_here t.kind (flat d) (ahead t ts)) _
      (end_here-Found n t.kind (flat d) (ahead t ts) h)
      (scan-Found n (depth_behind t.kind d) ts (h.0, omega (arith, h.1)))

last_of-Within : (n : ℕ) (s : Toks) → Within n s → Within n (last_of s)
last_of-Within n (last t) h = h
last_of-Within n (ahead t ts) h = last_of-Within n ts (h.0, omega (arith, h.1))

end_found-Within :
    (n : ℕ) (s : Toks) (x : Option (Toks × Bool))
    → Within n (last_of s)
    → Found n x
    → Within n (end_found s x).0
end_found-Within n s none h k = h
end_found-Within n s (some e) h k = k

pub scan_decl_end-Within : (n : ℕ) (s : Toks) → Within n s → Within n (scan_decl_end s).0
unfolding scan_decl_end
scan_decl_end-Within n s h =
    end_found-Within n s _ (last_of-Within n s h) (scan-Found n no_depth s h)

-- A token ends a declaration, or the scan for its end goes past it.
terminator :
    (k : Token.Kind) (s : Toks) → (end_here k true s ≡ none) ⊎ (colon_here k true s ≡ some none)
terminator Token.l_body s = inr refl
terminator Token.newline s = inr refl
terminator Token.semi s = inr refl
terminator Token.eof s = inr refl
terminator _ s = inl refl

or_behind : {A : Type 0} → Option A → Option A → Option A
or_behind x y = elim x [ some a ↦ some a | none ↦ y ]

-- Where there is a colon, the declaration has a token before its end.
pub scan_decl_end-Within_colon :
    (n : ℕ) (s : Toks) (c : ℕ)
    → find_colon s ≡ some c
    → Within n s
    → Within (n - 1) (scan_decl_end s).0
unfolding find_colon scan_decl_end scan
scan_decl_end-Within_colon n (last t) c e h =
    cc (sym e ∙ ap (λ k. colon_found (colon_here k true (last t))) h.0)
scan_decl_end-Within_colon n (ahead t ts) c e h = elim (terminator t.kind (ahead t ts)) [
  | inl past ↦
      end_found-Within (n - 1) (ahead t ts) _ (last_of-Within (n - 1) ts (h.0, omega (arith, h.1)))
        (or_behind-Found (n - 1) (end_here t.kind true (ahead t ts)) _
          (subst (Found (n - 1)) (sym past) tt)
          (scan-Found (n - 1) (depth_behind t.kind no_depth) ts (h.0, omega (arith, h.1))))
  | inr stop ↦ cc (
      sym e
      ∙ ap
          (λ x.
            colon_found (elim x [
              | some a ↦ some a
              | none ↦ scan colon_here (depth_behind t.kind no_depth) ts
            ]))
          stop)
]

-- The rest of a declaration, where its end leaves fewer than `k` tokens.
words_to_end-Within :
    {P : Toks → Type 0} (src : Str) (from k : ℕ)
    → ((s : Toks) → P s → Within k (scan_decl_end s).0)
    → Triple P (words_to_end src from) (λ _. Within k) Never
unfolding words_to_end
words_to_end-Within src from k h =
    triple_bind (triple_gets {Q = λ end s. Within k end.0} scan_decl_end h) λ end.
      triple_bind (source-keeps src from (cur end.0).pos.off) λ text.
        triple_bind (triple_modify (Within k) (λ _. end.0) λ s w. w)
          λ _. triple_pure (decl_words text, end.1)

pub words_to_end-Reads : (src : Str) (from n : ℕ) → Reads n (words_to_end src from) n
words_to_end-Reads src from n = words_to_end-Within src from n (scan_decl_end-Within n)

-- The rest of a declaration behind its colon.
pub words_to_end-Reads_colon :
    (src : Str) (from n c : ℕ)
    → Triple
        (λ s. Within n s × (find_colon s ≡ some c))
        (words_to_end src from)
        (λ _. Within (n - 1))
        Never
words_to_end-Reads_colon src from n c =
    words_to_end-Within src from (n - 1) λ s h. scan_decl_end-Within_colon n s c h.1 h.0
