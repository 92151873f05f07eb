-- ===== src/Syntax/Parser/Reads.antt =====
-- What the parser's helpers leave of the tokens before the EOF.
use cgpipe.Prelude.{
  ℕ, suc, ◌-◌, ◌<◌, ◌≤◌, Bool, true, false, not, ◌&&◌, ◌||◌, nat_eq, if◌then◌else◌, ◌==◌, ◌≡◌, ◌≢◌,
  refl, sym, ap, ◌∙◌, arith,
}
use cgpipe.Exec.{Result, fail, gets, modify, ◌>>=◌}
use cgpipe.Exec.Triple.{
  Triple, Post, triple_pure, triple_fail, triple_gets, triple_pre, triple_never, triple_if,
  triple_post, triple_bind, triple_modify,
}
use cgpipe.Syntax.Token
use cgpipe.Syntax.Token.{kind_eq, kind_beq_iff}
use cgpipe.Syntax.Cursor.{
  Toks, last, ahead, cur, advanced, Failure, out_of_fuel, failed, Problem, expected, Parser,
  advance, accept, expect, skip_separators, is_separator,
}
use cgpipe.Syntax.Parser.{after_item, up_to}

abbrev pub ClosedByEof : Toks → Type 0
ClosedByEof (last t) = t.kind ≡ Token.eof
ClosedByEof (ahead t ts) = ClosedByEof ts

abbrev pub count : Toks → ℕ
count (last t) = 0
count (ahead t ts) = suc (count ts)

abbrev pub Within : ℕ → Toks → Type 0
Within n s = ClosedByEof s × (count s < n)

abbrev pub Never : Failure → Toks → Type 0
Never e s = e ≢ out_of_fuel

-- With fewer than `n` tokens before the EOF the parser ends with fewer than `k`, or in an error.
abbrev pub Reads : {A : Type 0} → ℕ → Parser A → ℕ → Type 0
Reads n m k = Triple (Within n) m (λ _. Within k) Never

-- `t` is the token at the cursor.
abbrev pub At : ℕ → Token.Token → Toks → Type 0
At n t s = Within n s × (t ≡ cur s)

pub advanced-Within :
    (n : ℕ) (s : Toks) → Within n s → (cur s).kind ≢ Token.eof → Within (n - 1) (advanced s)
advanced-Within n (last t) h ne = absurd (ne h.0)
advanced-Within n (ahead t ts) h ne = (h.0, omega (arith, h.1))

pub advanced-Within_same : (n : ℕ) (s : Toks) → Within n s → Within n (advanced s)
advanced-Within_same n (last t) h = h
advanced-Within_same n (ahead t ts) h = (h.0, omega (arith, h.1))

pub kind-true : (k l : Token.Kind) → (k == l) ≡ true → k ≡ l
kind-true k l e = (kind_beq_iff k l).0 e

module _ {A : Type 0} where
  pub Reads-to : {n k k' : ℕ} {m : Parser A} → k ≤ k' → Reads n m k → Reads n m k'
  Reads-to le t = triple_post (λ a s h. (h.0, omega (arith, h.1))) (λ e s h. h) t

  pub Reads-from : {n n' k : ℕ} {m : Parser A} → n' ≤ n → Reads n m k → Reads n' m k
  Reads-from le t = triple_pre (λ s h. (h.0, omega (arith, h.1))) t

  pub nothing_left : {k : ℕ} {m : Parser A} → Reads 0 m k
  nothing_left = triple_never λ s h. omega (arith, h.1)

  pub Reads-if :
      {n k : ℕ} {x y : Parser A} (b : Bool)
      → Reads n x k
      → Reads n y k
      → Reads n (if b then x else y) k
  Reads-if b x y = triple_if b (λ _. x) (λ _. y)

  pub at_cur :
      {n k : ℕ} {f : Token.Token → Parser A}
      → ((t : Token.Token) → Triple (At n t) (f t) (λ _. Within k) Never)
      → Reads n (gets cur >>= f) k
  at_cur {n} h = triple_bind (triple_gets {Q = At n} cur λ s w. (w, refl)) h

  pub stay :
      {n k : ℕ} {t : Token.Token} {m : Parser A}
      → Reads n m k
      → Triple (At n t) m (λ _. Within k) Never
  stay h = triple_pre (λ s w. w.0) h

  pub step :
      {n k : ℕ} {t : Token.Token} {m : Parser A}
      → t.kind ≢ Token.eof
      → Reads (n - 1) m k
      → Triple (At n t) (modify advanced >>= λ _. m) (λ _. Within k) Never
  step {n} {t} ne h =
      triple_bind
        (triple_modify (Within (n - 1)) advanced
          λ s w. advanced-Within n s w.0 λ e. ne (ap (λ u. u.kind) w.1 ∙ e))
        λ _. h

pub refuse :
    {A : Type 0} {n k : ℕ} (p : Token.Pos) (q : Problem) → Reads n (fail {A = A} (failed p q)) k
refuse p q = triple_pre (λ s w e. cc e) (triple_fail (failed p q))

pub advance-Reads :
    (n : ℕ) (t : Token.Token)
    → t.kind ≢ Token.eof
    → Triple (At n t) advance (λ _. Within (n - 1)) Never
unfolding advance
advance-Reads n t ne = record {
  at = λ s w. advanced-Within n s w.0 λ e. ne (ap (λ u. u.kind) w.1 ∙ e);
}

pub expect-Reads : (n : ℕ) (k : Token.Kind) → k ≢ Token.eof → Reads n (expect k) (n - 1)
unfolding expect
expect-Reads n k ne = at_cur λ t.
    triple_if (t.kind == k) (λ e. advance-Reads n t λ q. ne (sym (kind-true t.kind k e) ∙ q))
      (λ _. stay (refuse t.pos (expected k t)))

pub accept-Reads : (n : ℕ) (k : Token.Kind) → Reads n (accept k) n
unfolding accept
accept-Reads n k = at_cur λ t. stay (
    Reads-if (t.kind == k)
      (triple_bind (triple_modify (Within n) advanced (advanced-Within_same n))
        λ _. triple_pure true)
      (triple_pure false))

-- A separator is not the EOF.
pub separator-not-eof : (t : Token.Token) → is_separator t ≡ true → t.kind ≢ Token.eof
separator-not-eof t e q = cc (sym (ap (λ k. k == Token.newline || k == Token.semi) q) ∙ e)

skip_if :
    (n : ℕ) (b : Bool) (x y : Result Failure (Unit {0}) × Toks)
    → (b ≡ true → Post (λ _. Within n) Never x)
    → Post (λ _. Within n) Never y
    → Post (λ _. Within n) Never (if b then x else y)
skip_if n true x y hx hy = hx refl
skip_if n false x y hx hy = hy

skipped : (n : ℕ) (s : Toks) → Within n s → Post (λ _. Within n) Never (skip_separators s)
unfolding skip_separators
skipped n (last t) h = skip_if n (is_separator t) _ _ (λ e. absurd (separator-not-eof t e h.0)) h
skipped n (ahead t ts) h =
    skip_if n (is_separator t) _ _ (λ _. skipped n ts (h.0, omega (arith, h.1))) h

pub skip_separators-Reads : (n : ℕ) → Reads n skip_separators n
skip_separators-Reads n = record { at = skipped n }

pub pred_le : (n : ℕ) → n - 1 ≤ n
pred_le n = omega arith

pub after_item-Reads :
    {A : Type 0} (n : ℕ) (close : Token.Kind) (empty : A) (again : Parser A)
    → Reads n again n
    → Reads n (after_item close empty again) n
unfolding after_item
after_item-Reads n close empty again h =
    triple_bind (accept-Reads n Token.comma)
      λ more. at_cur λ t. stay (Reads-if (more && not (t.kind == close)) h (triple_pure empty))

pub up_to-Reads :
    {A : Type 0} (n : ℕ) (close : Token.Kind) (empty : A) (items : Parser A)
    → close ≢ Token.eof
    → Reads n items n
    → Reads n (up_to close empty items) n
unfolding up_to
up_to-Reads n close empty items ne h = at_cur λ t. stay (
    triple_bind (Reads-if (t.kind == close) (triple_pure empty) h)
      λ a. triple_bind (Reads-to (pred_le n) (expect-Reads n close ne)) λ _. triple_pure a)
