-- ===== src/Runner/Wildcard/RoundTrip.antt =====
-- What a match of a `%` rule means, and the instance that it leads to.
use mathlib.Core.List.{Memᴰ}
use mathlib.Core.List.Memᴰ
use cgpipe.Prelude.{
  suc, ◌+◌, ◌-◌, ◌<◌, List, [], ◌∷◌, ◌++◌, map, some, ltb, length, take, drop, list_eq, nat_eq, ◌≡◌,
  ◌≢◌, ◌↔◌, refl, ap, ◌∙◌, sym, true, inl, inr, Option-cases, length-append, append_assoc, arith,
  All, lt→ltb, subst, none,
}
use cgpipe.Text.{Str, has_prefix, has_suffix, index_byte, slice, replace_byte}
use cgpipe.Text.Laws.{
  Lacks, has_prefix_split, has_suffix_split, split_middle, slice_middle, index_byte_split,
  index_byte-append, replace_byte_once, has_prefix-append, has_suffix-append, take-append,
  drop_past,
}
use cgpipe.Runner.Target.{Target}
use cgpipe.Runner.Wildcard.{cut_stem, match_pattern, match_outputs, match_wildcard, instantiate}

cut_stem_sound :
    (prefix suffix goal stem : Str)
    → cut_stem prefix suffix goal ≡ some stem
    → (goal ≡ prefix ++ (stem ++ suffix)) × (stem ≢ [])
unfolding cut_stem
cut_stem_sound prefix suffix goal stem h =
    let long : length prefix + length suffix < length goal = ground arith in
    let pre : has_prefix goal prefix ≡ true = ground arith in
    let suf : has_suffix goal suffix ≡ true = ground arith in
    let cut : slice goal (length prefix) (length goal - length suffix) ≡ stem = ground arith in
    let (front, back) = has_suffix_split goal suffix suf in
    let (mid, e) =
      split_middle goal prefix suffix (drop (length prefix) goal) front
        (has_prefix_split goal prefix pre) back (omega arith) in
    let same : mid ≡ stem =
      sym (slice_middle prefix mid suffix)
      ∙ (ap (λ g. slice g (length prefix) (length g - length suffix)) (sym e) ∙ cut) in
    (
      rw same at e,
      λ empty. absurd (
          omega (
            arith,
            ap length e,
            ap length (same ∙ empty),
            length-append prefix (mid ++ suffix),
            length-append mid suffix,
          )),
    )

cut_stem_complete :
    (prefix stem suffix : Str)
    → stem ≢ []
    → cut_stem prefix suffix (prefix ++ (stem ++ suffix)) ≡ some stem
unfolding cut_stem
cut_stem_complete prefix [] suffix h = absurd (h refl)
cut_stem_complete prefix (c ∷ stem) suffix h =
    let goal = prefix ++ ((c ∷ stem) ++ suffix) in
    let long : ltb (length prefix + length suffix) (length goal) ≡ true = lt→ltb _ _ (
      omega
        (arith, length-append prefix ((c ∷ stem) ++ suffix), length-append (c ∷ stem) suffix)) in
    let back : has_suffix goal suffix ≡ true =
      rw (← append_assoc prefix (c ∷ stem) suffix)
        (has_suffix-append (prefix ++ (c ∷ stem)) suffix) in
    rw (long, has_prefix-append prefix ((c ∷ stem) ++ suffix), back)
      (ap some (slice_middle prefix (c ∷ stem) suffix))

-- How a goal comes from a pattern: the first `%` of the pattern gave way to the stem.
pub record Matches (p goal stem : Str) : Type 0 where
  pub front : Str
  pub back : Str
  pub pattern_split : p ≡ front ++ (b'%' ∷ back)
  pub front_plain : Lacks b'%' front
  pub goal_split : goal ≡ front ++ (stem ++ back)
  pub stem_some : stem ≢ []

match_pattern_sound : (p goal stem : Str) → match_pattern p goal ≡ some stem → Matches p goal stem
unfolding match_pattern
match_pattern_sound p goal stem h = elim (Option-cases (index_byte p b'%')) [
  | inl e ↦ ground arith
  | inr (i, e) ↦
      let (plain, split) = index_byte_split p b'%' i e in
      let (whole, some_stem) =
        cut_stem_sound (take i p) (drop (suc i) p) goal stem (rw (e, match_pattern) at h) in
      record {
        front = take i p;
        back = drop (suc i) p;
        pattern_split = split;
        front_plain = plain;
        goal_split = whole;
        stem_some = some_stem;
      }
]

cut_at_percent :
    (front back goal : Str)
    → Lacks b'%' front
    → match_pattern (front ++ (b'%' ∷ back)) goal ≡ cut_stem front back goal
unfolding match_pattern
cut_at_percent front back goal plain = rw (
  index_byte-append front back b'%' plain,
  match_pattern,
  take-append front (b'%' ∷ back),
  drop_past front b'%' back,
)

match_pattern_complete :
    (p goal stem : Str) → Matches p goal stem → match_pattern p goal ≡ some stem
match_pattern_complete p goal stem m =
    rw (pattern_split, goal_split, cut_at_percent front back (front ++ (stem ++ back)) front_plain)
      (cut_stem_complete front stem back stem_some)
  where
    open m use {front, back, pattern_split, goal_split, front_plain, stem_some}

-- The first of the patterns that a goal comes from, and its stem.
pub record IsFirstMatch (ps : List Str) (goal stem : Str) : Type 0 where
  pub before : List Str
  pub pattern : Str
  pub after : List Str
  pub split : ps ≡ before ++ (pattern ∷ after)
  pub no_sooner : (q other : Str) → Memᴰ q before → ¬ Matches q goal other
  pub matched : Matches pattern goal stem

first_here :
    (p : Str) (ps : List Str) (goal stem : Str)
    → Matches p goal stem
    → IsFirstMatch (p ∷ ps) goal stem
first_here p ps goal stem m = record {
  before = [];
  pattern = p;
  after = ps;
  split = refl;
  no_sooner = λ q other k. absurd (Memᴰ.not-nil k);
  matched = m;
}

first_later :
    (p : Str) (ps : List Str) (goal stem : Str)
    → match_pattern p goal ≡ none
    → IsFirstMatch ps goal stem
    → IsFirstMatch (p ∷ ps) goal stem
first_later p ps goal stem e f = record {
  before = p ∷ f.before;
  pattern = f.pattern;
  after = f.after;
  split = ap (λ rest. p ∷ rest) f.split;
  no_sooner = λ q other k m. elim (Memᴰ.cases_cons k) [
    | inl same ↦
        absurd
          (cc (e, match_pattern_complete p goal other (subst (λ x. Matches x goal other) same m)))
    | inr more ↦ f.no_sooner q other more m
  ];
  matched = f.matched;
}

match_outputs_sound :
    (ps : List Str) (goal stem : Str)
    → match_outputs ps goal ≡ some stem
    → IsFirstMatch ps goal stem
unfolding match_outputs
match_outputs_sound [] goal stem h = cc
match_outputs_sound (p ∷ ps) goal stem h = elim (Option-cases (match_pattern p goal)) [
  | inl e ↦
      first_later p ps goal stem e (match_outputs_sound ps goal stem (rw (e, match_outputs) at h))
  | inr (found, e) ↦
      first_here p ps goal stem (match_pattern_sound p goal stem (e ∙ (rw (e, match_outputs) at h)))
]

match_outputs_first :
    (before : List Str) (p : Str) (after : List Str) (goal stem : Str)
    → ((q other : Str) → Memᴰ q before → ¬ Matches q goal other)
    → Matches p goal stem
    → match_outputs (before ++ (p ∷ after)) goal ≡ some stem
unfolding match_outputs
match_outputs_first [] p after goal stem none_such m =
    rw (match_pattern_complete p goal stem m, match_outputs) refl
match_outputs_first (q ∷ before) p after goal stem none_such m =
    elim (Option-cases (match_pattern q goal)) [
      | inl e ↦
          rw (e, match_outputs)
            (match_outputs_first before p after goal stem
              (λ x other k. none_such x other (Memᴰ.tail k)) m)
      | inr (other, e) ↦
          absurd (none_such q other (Memᴰ.head refl) (match_pattern_sound q goal other e))
    ]

-- A `%` rule matches a goal with a stem exactly when some output of the rule, its first `%` replaced
-- by the stem, is the goal, the stem is not empty, and the goal does not come in this way from any
-- output before it, with whatever stem: the first output that fits decides.
pub match_wildcard_iff :
    (rule : Target) (goal stem : Str)
    → (match_wildcard rule goal ≡ some stem) ↔ IsFirstMatch rule.outputs goal stem
unfolding match_wildcard
match_wildcard_iff rule goal stem = (
  match_outputs_sound rule.outputs goal stem,
  λ f.
      ap (λ ps. match_outputs ps goal) f.split
      ∙ match_outputs_first f.before f.pattern f.after goal stem f.no_sooner f.matched,
)

-- At most one `%`: nothing is left of the pattern's `%` behind the first.
abbrev pub HasOnePercent : Str → Type 0
HasOnePercent p = (front back : Str) → p ≡ front ++ (b'%' ∷ back) → Lacks b'%' back

replace-match :
    (p goal stem : Str)
    → HasOnePercent p
    → match_pattern p goal ≡ some stem
    → replace_byte p b'%' stem ≡ goal
replace-match p goal stem one h =
    let m = match_pattern_sound p goal stem h in
    let plain = one m.front m.back m.pattern_split in
    ap (λ q. replace_byte q b'%' stem) m.pattern_split
    ∙ (replace_byte_once m.front m.back b'%' stem m.front_plain plain ∙ sym m.goal_split)

match_outputs-makes :
    (ps : List Str) (goal stem : Str)
    → All HasOnePercent ps
    → match_outputs ps goal ≡ some stem
    → Memᴰ goal (map (λ o. replace_byte o b'%' stem) ps)
unfolding match_outputs
match_outputs-makes [] goal stem one h = cc
match_outputs-makes (p ∷ ps) goal stem one h = elim (Option-cases (match_pattern p goal)) [
  | inl e ↦ Memᴰ.tail (match_outputs-makes ps goal stem one.1 (rw (e, match_outputs) at h))
  | inr (found, e) ↦
      Memᴰ.head (sym (replace-match p goal stem one.0 (e ∙ (rw (e, match_outputs) at h))))
]

-- Where each output of the rule has at most one `%`, the instance for the stem that a goal matched
-- with has that goal among its outputs, so the job that is submitted for it makes it.
pub instantiate-match_wildcard :
    (rule : Target) (goal stem : Str)
    → All HasOnePercent rule.outputs
    → match_wildcard rule goal ≡ some stem
    → Memᴰ goal (instantiate rule stem).outputs
unfolding match_wildcard instantiate
instantiate-match_wildcard rule goal stem = match_outputs-makes rule.outputs goal stem
