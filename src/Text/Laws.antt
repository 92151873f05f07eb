-- ===== src/Text/Laws.antt =====
-- What the functions of `Text` say about how a text is put together.
use cgpipe.Prelude.{
  ℕ, zero, suc, ◌+◌, ◌-◌, ◌≤◌, ◌≡◌, refl, ap, ◌≢◌, inl, inr, [], ◌∷◌, ◌++◌, true, none, some, ◌==◌,
  nat_eq, list_eq, eq_iff, eq_self, eq_ne, take, drop, length, length-append, Bool-cases,
  Option-cases, append_assoc, arith,
}
use cgpipe.Text.{Str, has_prefix, has_suffix, index_byte, slice, replace_byte}

-- The byte `c` does not stand in the text.
abbrev pub Lacks : ℕ → Str → Type 0
Lacks c [] = Unit
Lacks c (d ∷ s) = (d ≢ c) × Lacks c s

pub has_prefix-append : (p s : Str) → has_prefix (p ++ s) p ≡ true
unfolding has_prefix
has_prefix-append [] [] = refl
has_prefix-append [] (c ∷ s) = refl
has_prefix-append (p ∷ ps) s = rw (eq_self p) (has_prefix-append ps s)

pub has_prefix_split : (s p : Str) → has_prefix s p ≡ true → s ≡ p ++ drop (length p) s
unfolding has_prefix
has_prefix_split s [] h = refl
has_prefix_split [] (p ∷ ps) h = cc
has_prefix_split (c ∷ s) (p ∷ ps) h = ground (arith, eq_iff c p, has_prefix_split s ps)

pub has_suffix-append : (s p : Str) → has_suffix (s ++ p) p ≡ true
unfolding has_suffix
has_suffix-append [] [] = refl
has_suffix-append [] (c ∷ p) = rw (eq_self (c ∷ p))
has_suffix-append (c ∷ s) p = ground (arith, has_suffix-append s p)

pub has_suffix_split : (s p : Str) → has_suffix s p ≡ true → (front : Str) × (s ≡ front ++ p)
unfolding has_suffix
has_suffix_split [] p h = ([], (eq_iff [] p).0 h)
has_suffix_split (c ∷ s) p h = elim (Bool-cases ((c ∷ s) == p)) [
  | inl whole ↦ ([], (eq_iff (c ∷ s) p).0 whole)
  | inr part ↦
      let (front, e) = has_suffix_split s p (ground arith) in (c ∷ front, ap (λ t. c ∷ t) e)
]

pub take-append : (s t : Str) → take (length s) (s ++ t) ≡ s
take-append [] t = refl
take-append (c ∷ s) t = ap (λ r. c ∷ r) (take-append s t)

pub drop-append : (s t : Str) → drop (length s) (s ++ t) ≡ t
drop-append [] t = refl
drop-append (c ∷ s) t = drop-append s t

-- The middle of three parts, cut out by the lengths of the outer two.
pub slice_middle :
    (front mid back : Str)
    → slice (front ++ (mid ++ back)) (length front) (length (front ++ (mid ++ back)) - length back)
      ≡ mid
slice_middle front mid back =
    let n : length (front ++ (mid ++ back)) - length back - length front ≡ length mid =
      omega (arith, length-append front (mid ++ back), length-append mid back) in
    rw (n, drop-append front (mid ++ back)) (take-append mid back)

-- Two ways to read a text as a front and a back that do not overlap.
pub split_middle :
    (s front back a b : Str)
    → s ≡ front ++ a
    → s ≡ b ++ back
    → length front + length back ≤ length s
    → (mid : Str) × (s ≡ front ++ (mid ++ back))
split_middle s [] back a b e f h = (b, f)
split_middle [] (c ∷ front) back a b e f h = cc
split_middle (d ∷ s) (c ∷ front) back a [] e f h = absurd (omega (arith, ap length f))
split_middle (d ∷ s) (c ∷ front) back a (b ∷ bs) e f h =
    let (mid, g) = split_middle s front back a bs (ap (drop 1) e) (ap (drop 1) f) (omega arith) in
    (mid, cc)

pub index_byte_split :
    (s : Str) (c i : ℕ)
    → index_byte s c ≡ some i
    → Lacks c (take i s) × (s ≡ take i s ++ (c ∷ drop (suc i) s))
unfolding index_byte
index_byte_split [] c i h = cc
index_byte_split (d ∷ s) c zero h = elim (Bool-cases (d == c)) [
  | inl e ↦ (tt, ap (λ x. x ∷ s) ((eq_iff d c).0 e))
  | inr e ↦ ground (arith, Option-cases (index_byte s c))
]
index_byte_split (d ∷ s) c (suc i) h = elim (Bool-cases (d == c)) [
  | inl e ↦ ground arith
  | inr e ↦
      let (lacks, split) = index_byte_split s c i (ground (arith, Option-cases (index_byte s c))) in
      ((λ p. cc ((eq_iff d c).1 p), lacks), ap (λ t. d ∷ t) split)
]

pub index_byte-append :
    (front back : Str) (c : ℕ)
    → Lacks c front
    → index_byte (front ++ (c ∷ back)) c ≡ some (length front)
unfolding index_byte
index_byte-append [] back c h = rw (eq_self c)
index_byte-append (d ∷ front) back c h = rw (eq_ne d c h.0, index_byte-append front back c h.1)

pub index_byte-none : (s : Str) (c : ℕ) → Lacks c s → index_byte s c ≡ none
unfolding index_byte
index_byte-none [] c h = refl
index_byte-none (d ∷ s) c h = rw (eq_ne d c h.0, index_byte-none s c h.1)

pub replace_byte-Lacks : (s : Str) (c : ℕ) (t : Str) → Lacks c s → replace_byte s c t ≡ s
unfolding replace_byte
replace_byte-Lacks [] c t h = refl
replace_byte-Lacks (d ∷ s) c t h = rw (eq_ne d c h.0, replace_byte-Lacks s c t h.1)

pub replace_byte-append :
    (s r : Str) (c : ℕ) (t : Str)
    → replace_byte (s ++ r) c t ≡ replace_byte s c t ++ replace_byte r c t
unfolding replace_byte
replace_byte-append [] r c t = refl
replace_byte-append (d ∷ s) r c t =
    ground
      (arith, replace_byte-append s r c t, append_assoc t (replace_byte s c t) (replace_byte r c t))

-- With one `c` in the text, its replacement stands between what was round it.
pub replace_byte_once :
    (front back : Str) (c : ℕ) (t : Str)
    → Lacks c front
    → Lacks c back
    → replace_byte (front ++ (c ∷ back)) c t ≡ front ++ (t ++ back)
unfolding replace_byte
replace_byte_once [] back c t f b = rw (eq_self c, replace_byte-Lacks back c t b)
replace_byte_once (d ∷ front) back c t f b =
    rw (eq_ne d c f.0, replace_byte_once front back c t f.1 b)

pub drop_past : (s : Str) (c : ℕ) (t : Str) → drop (suc (length s)) (s ++ (c ∷ t)) ≡ t
drop_past [] c t = refl
drop_past (d ∷ s) c t = drop_past s c t
