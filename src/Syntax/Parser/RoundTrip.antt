-- ===== src/Syntax/Parser/RoundTrip.antt =====
-- The parser reads a printed tree back.
use cgpipe.Prelude.{
  subst, sym, ◌-◌, ℕ, zero, suc, ◌+◌, ◌*◌, ◌<◌, ◌≤◌, Bool, true, false, not, nat_eq, if◌then◌else◌,
  ltb, ◌≡◌, refl, ap, ◌∙◌, arith,
}
use cgpipe.Exec.{ok, pure, gets, modify, continue, ◌>>=◌}
use cgpipe.Syntax.Token
use cgpipe.Syntax.Token.{kind_eq}
use cgpipe.Syntax.Cursor.{Toks, ahead, cur}
use cgpipe.Syntax.Parser.{
  parse_unary, parse_binary, integer, primary_at, parse_primary, parse_suffixes, parse_postfix,
  parse_expr,
}
use cgpipe.Syntax.Parser.Print.{
  Op, op_kind, power, right_power, Tree, name, text, truth, number, infix_at, negation, opposite,
  item, size, expr_of, level, cap, is_receiver, mark, word, in_parens, bare, emit, is_suffix, Ends,
}
use cgpipe.Syntax.Parser.Steps.{
  op-power, op-Bounded, op-no_suffix, size_positive, binary_step, unary_other, unary_bang,
  unary_minus, suffixes_stop, suffixes_index,
}
use cgpipe.Syntax.Parser.Trees.{
  not-false, bare-no_colon, receiver-Unprefixed, operand, Suffixed, Unary, Chained, Parsed,
  Unary-Chained, full_bare, postfix_round, unary_round, full_wrap,
}

postfix_wrap :
    (t : Tree)
    → Parsed t
    → (b : Bool) (f k : ℕ) (s : Toks) → 2 * size t ≤ f + 1
    → size t ≤ k
    → (b ≡ false → is_receiver t ≡ true)
    → (j : ℕ) × (k < j + size t)
      × (parse_postfix (parse_expr f) k (in_parens b (bare t) s)
          ≡ parse_suffixes (parse_expr f) j (expr_of t) s)
postfix_wrap t h true f k s lf lk r =
    (k, omega (arith, size_positive t), postfix_round t h f k s lf)
postfix_wrap t h false f k s lf lk r = h.suffixes (r refl) f k s (omega (arith, lf)) lk

unary_wrap :
    (t : Tree)
    → Parsed t
    → (b : Bool) (f u k : ℕ) (s : Toks) → 2 * size t ≤ f + 1
    → size t ≤ u
    → size t ≤ k
    → (b ≡ false → level t ≡ 8)
    → Ends (if b then 8 else cap t) s
    → parse_unary (parse_expr f) u (parse_postfix (parse_expr f) k) (in_parens b (bare t) s)
      ≡ (ok (expr_of t), s)
unary_wrap t h true f u k s lf lu lk l ends =
    unary_round t h f u k s lf (omega (arith, lu, size_positive t))
      (omega (arith, lk, size_positive t)) ends.1
unary_wrap t h false f u k s lf lu lk l ends =
    h.prefixed (l refl) f u k s (omega (arith, lf)) lu lk ends

chain_wrap :
    (t : Tree)
    → Parsed t
    → (w : Bool) (f u k b min_bp : ℕ) (s : Toks) → 2 * size t ≤ f + 1
    → size t ≤ u
    → size t ≤ k
    → size t ≤ b
    → (w ≡ false → (min_bp ≤ level t) × Ends (cap t) s)
    → is_suffix (cur s).kind ≡ false
    → (j : ℕ) × (b < j + size t)
      × (operand f u k b min_bp (in_parens w (bare t) s)
          ≡ parse_binary (parse_expr f) j min_bp (expr_of t) s)
unfolding ◌>>=◌
chain_wrap t h true f u k b m s lf lu lk lb le stop = (
  b,
  omega (arith, size_positive t),
  ap (continue (parse_binary (parse_expr f) b m)) (
      unary_round t h f u k s lf (omega (arith, lu, size_positive t))
        (omega (arith, lk, size_positive t)) stop),
)
chain_wrap t h false f u k b m s lf lu lk lb le stop =
    h.chain f u k b m s (omega (arith, lf)) lu lk lb (le refl).0 (le refl).1

level-least : (t : Tree) (o : Op) → power o < cap t → power o ≤ level t
level-least (infix_at o' p l r) o less = omega (arith, less, op-Bounded o')
level-least _ o less = omega (arith, op-Bounded o)

level-top : (t : Tree) → 8 ≤ level t → level t ≡ 8
level-top (infix_at o p l r) h = absurd (omega (arith, h, op-Bounded o))
level-top _ h = refl

infix-Chained :
    (o : Op) (p : Token.Pos) (l r : Tree) → Parsed l → Parsed r → Chained (infix_at o p l r)
infix-Chained o p l r hl hr f u k b m s lf lu lk lb le ends = joined_by (
    chain_wrap l hl (not (ltb (power o) (cap l))) f u k b m next (omega (arith, lf))
      (omega (arith, lu)) (omega (arith, lk)) (omega (arith, lb))
      (λ e.
        let less : power o < cap l = ground (arith, e) in
        (
          omega (arith, le, level-least l o less),
          (
            subst (λ x. x < suc (cap l - 1)) (sym (op-power o)) (omega (arith, less)),
            op-no_suffix o,
          ),
        ))
      (op-no_suffix o))
  where
    next : Toks
    next = ahead (mark (op_kind o) p) (in_parens (ltb (level r) (right_power o)) (bare r) s)

    joined_by :
        ((j : ℕ) × (b < j + size l)
          × (operand f u k b m (bare (infix_at o p l r) s)
              ≡ parse_binary (parse_expr f) j m (expr_of l) next))
        → (j : ℕ) × (b < j + size (infix_at o p l r))
          × (operand f u k b m (bare (infix_at o p l r) s)
              ≡ parse_binary (parse_expr f) j m (expr_of (infix_at o p l r)) s)
    joined_by (zero, less, e) = absurd (omega (arith, less, lb))
    joined_by (suc j, less, e) = (
      j,
      omega (arith, less),
      e
          ∙ binary_step (parse_expr f) j m o p (expr_of l) (expr_of r) _ s le (
              full_wrap r hr (ltb (level r) (right_power o)) f (right_power o) s (omega (arith, lf))
                (λ e'. ground (arith, e')) (op-Bounded o).2 ends),
    )

-- A tree that starts with no prefix operator, by its suffixes.
receiver-Unary : (t : Tree) → is_receiver t ≡ true → cap t ≡ 8 → Suffixed t → Unary t
receiver-Unary t r c h f zero k s lf lu lk ends = absurd (omega (arith, lu, size_positive t))
receiver-Unary t r c h f (suc u) k s lf lu lk ends =
    let (nb, nm) = receiver-Unprefixed t s r in
    unary_other (parse_expr f) u _ (bare t s) nb nm ∙ finish (h f k s lf lk)
  where
    finish :
        ((j : ℕ) × (k < j + size t)
          × (parse_postfix (parse_expr f) k (bare t s)
              ≡ parse_suffixes (parse_expr f) j (expr_of t) s))
        → parse_postfix (parse_expr f) k (bare t s) ≡ (ok (expr_of t), s)
    finish (zero, less, e) = absurd (omega (arith, less, lk))
    finish (suc j, less, e) = e ∙ suffixes_stop (parse_expr f) j (expr_of t) s ends.1

receiver-Parsed : (t : Tree) → is_receiver t ≡ true → cap t ≡ 8 → Suffixed t → Parsed t
receiver-Parsed t r c h = record {
  suffixes = λ _. h;
  prefixed = λ _. receiver-Unary t r c h;
  chain = Unary-Chained t (receiver-Unary t r c h);
}

prefix-Parsed : (t : Tree) → is_receiver t ≡ false → Unary t → Parsed t
prefix-Parsed t r h = record {
  suffixes = λ e. cc (r, e);
  prefixed = λ _. h;
  chain = Unary-Chained t h;
}

item-Suffixed : (p : Token.Pos) (x i : Tree) → Parsed x → Parsed i → Suffixed (item p x i)
item-Suffixed p x i hx hi f k s lf lk = indexed (
    postfix_wrap x hx (not (is_receiver x)) f k next (omega (arith, lf)) (omega (arith, lk))
      (not-false (is_receiver x)))
  where
    next : Toks
    next = ahead (mark Token.l_brack p) (bare i (ahead (mark Token.r_brack Token.no_pos) s))

    indexed :
        ((j : ℕ) × (k < j + size x)
          × (parse_postfix (parse_expr f) k (bare (item p x i) s)
              ≡ parse_suffixes (parse_expr f) j (expr_of x) next))
        → (j : ℕ) × (k < j + size (item p x i))
          × (parse_postfix (parse_expr f) k (bare (item p x i) s)
              ≡ parse_suffixes (parse_expr f) j (expr_of (item p x i)) s)
    indexed (zero, less, e) = absurd (omega (arith, less, lk))
    indexed (suc j, less, e) = (
      j,
      omega (arith, less),
      e
          ∙ suffixes_index (parse_expr f) j p Token.no_pos (expr_of x) (expr_of i) _ s
              (bare-no_colon i _)
              (full_bare i hi f 0 _ (omega (arith, lf, size_positive x)) (omega arith) (omega arith)
                (omega arith, refl)),
    )

negation-Unary : (p : Token.Pos) (x : Tree) → Parsed x → Unary (negation p x)
negation-Unary p x h f zero k s lf lu lk ends = absurd (omega (arith, lu))
negation-Unary p x h f (suc u) k s lf lu lk ends = unary_bang (parse_expr f) u _ p (expr_of x) _ s (
    unary_wrap x h (ltb (level x) 8) f u k s (omega (arith, lf)) (omega (arith, lu))
      (omega (arith, lk)) (λ e. level-top x (ground (arith, e))) ends)

opposite-Unary : (p : Token.Pos) (x : Tree) → Parsed x → Unary (opposite p x)
opposite-Unary p x h f zero k s lf lu lk ends = absurd (omega (arith, lu))
opposite-Unary p x h f (suc u) k s lf lu lk ends =
    unary_minus (parse_expr f) u _ p (expr_of x) _ s (
      full_wrap x h (ltb (level x) 7) f 7 s (omega (arith, lf)) (λ e. ground (arith, e))
        (omega arith) ends)

leaf :
    {t : Tree}
    → is_receiver t ≡ true
    → cap t ≡ 8
    → 1 ≤ size t
    → ((f k : ℕ) (s : Toks)
        → parse_postfix (parse_expr f) k (bare t s) ≡ parse_suffixes (parse_expr f) k (expr_of t) s)
    → Parsed t
leaf {t} r c pos h = receiver-Parsed t r c λ f k s lf lk. (k, omega (arith, pos), h f k s)

parsed : (t : Tree) → Parsed t
unfolding parse_postfix parse_primary primary_at ◌>>=◌ gets modify pure
parsed (name p lit) = leaf refl refl (omega arith) λ f k s. refl
parsed (text p lit) = leaf refl refl (omega arith) λ f k s. refl
parsed (truth p true) = leaf refl refl (omega arith) λ f k s. refl
parsed (truth p false) = leaf refl refl (omega arith) λ f k s. refl
parsed (number p lit n e) = leaf refl refl (omega arith) λ f k s.
    ap (λ r. continue (parse_suffixes (parse_expr f) k) (integer (word Token.int lit p) r s)) e
parsed (infix_at o p l r) = record {
  suffixes = λ e. cc e;
  prefixed = λ e. absurd (omega (arith, e, op-Bounded o));
  chain = infix-Chained o p l r (parsed l) (parsed r);
}
parsed (negation p x) = prefix-Parsed (negation p x) refl (negation-Unary p x (parsed x))
parsed (opposite p x) = prefix-Parsed (opposite p x) refl (opposite-Unary p x (parsed x))
parsed (item p x i) =
    receiver-Parsed (item p x i) refl refl (item-Suffixed p x i (parsed x) (parsed i))

-- The parser reads a printed tree back, at any binding power: the tree's tokens, with parentheses only
-- where the precedence asks for them, and then tokens that do not go on with the expression, are
-- read as the tree's expression, and those tokens are left, for each fuel from twice the tree's size on.
pub parse_expr-emit :
    (t : Tree) (fuel min_bp : ℕ) (s : Toks)
    → 2 * size t ≤ fuel
    → min_bp ≤ 7
    → Ends min_bp s
    → parse_expr fuel min_bp (emit min_bp t s) ≡ (ok (expr_of t), s)
parse_expr-emit t fuel m s lf le7 ends =
    full_wrap t (parsed t) (ltb (level t) m) fuel m s lf (λ e. ground (arith, e)) le7 ends
