-- ===== src/Runner/Driver/Choose/Decides.antt =====
-- `satisfiable` of driver.go on rules with a rank that falls towards their inputs.
use mathlib.Core.List.{Memᴰ}
use mathlib.Core.List.Memᴰ
use mathlib.Core.Logic.{⊎_elim}
use cgpipe.Prelude.{
  ℕ, zero, suc, ◌<◌, List, [], ◌∷◌, Bool, true, false, Option, none, some, list_eq, nat_eq,
  if◌then◌else◌, ◌≡◌, refl, ◌∙◌, sym, ap, subst, ◌⊎◌, inl, inr, Bool-cases, ◌==◌, eq_iff, arith,
}
use cgpipe.Prelude.Assoc.{lookup, insert, remove, flag, insert_cases, flag-insert, flag-remove}
use cgpipe.Exec.{pure}
use cgpipe.Exec.Triple.{
  Triple, triple_pure, triple_gets, triple_pre, triple_given, triple_never, triple_post, triple_if,
  triple_bind, triple_modify, pick, triple_all_of, triple_any_of,
}
use cgpipe.Text.{Str}
use cgpipe.Runner.Driver.{
  Ref, ref_eq, Error, Env, Driver, M, target_of, candidates_for, stat_exists, external_dep, is_some,
}
use cgpipe.Runner.Driver.Choose.{input_satisfiable, examine, unless_known, satisfiable}
use cgpipe.Runner.Driver.Choose.Sound.{
  CanMake, make, CanHave, on_disk, by_rule, by_job, CanHaveAll, none_left, have,
}

-- A rank that falls from each rule to the rules that make its inputs.
abbrev pub IsRanked : Env → (Ref → ℕ) → Type 0
IsRanked env rank =
    (t : Ref) (p : Str) (c : Ref)
    → Memᴰ p (target_of env t).inputs
    → Memᴰ c (candidates_for env p)
    → rank c < rank t

CanHave-of_all :
    (env : Env) (p : Str) (ps : List Str) → CanHaveAll env ps → Memᴰ p ps → CanHave env p
CanHave-of_all env p [] all m = absurd (Memᴰ.not-nil m)
CanHave-of_all env p (q ∷ ps) (have _ _ h all) m =
    ⊎_elim (λ e. subst (CanHave env) (sym e) h) (CanHave-of_all env p ps all) (Memᴰ.cases_cons m)

CanMake-input :
    (env : Env) (t : Ref) (p : Str)
    → CanMake env t
    → Memᴰ p (target_of env t).inputs
    → CanHave env p
CanMake-input env t p (make _ all) m = CanHave-of_all env p (target_of env t).inputs all m

CanHave-cases :
    (env : Env) (p : Str)
    → CanHave env p
    → (stat_exists env p ≡ true)
      ⊎ ((c : Ref) × Memᴰ c (candidates_for env p) × CanMake env c)
      ⊎ (is_some (external_dep env p) ≡ true)
CanHave-cases env p (on_disk _ e) = inl e
CanHave-cases env p (by_rule _ c m h) = inr (inl (c, m, h))
CanHave-cases env p (by_job _ e) = inr (inr e)

module _ (env : Env) where
  -- The memo holds right answers only.
  pub record IsExact (s : Driver) : Type 0 where
    pub true_entries : (t : Ref) → lookup t s.sat ≡ some true → CanMake env t
    pub false_entries : (t : Ref) → lookup t s.sat ≡ some false → ¬ CanMake env t

  abbrev pub Truth : Ref → Bool → Type 0
  Truth t b = pick b (CanMake env t) (¬ CanMake env t)

  IsExact-insert :
      (t : Ref) (b : Bool) (s : Driver) (a : List (Ref × Bool))
      → IsExact s
      → Truth t b
      → IsExact (record s { sat_active = a; sat = insert t b s.sat })
  IsExact-insert t true s a h made = record {
    true_entries = λ u e.
        ⊎_elim (λ same. subst (CanMake env) same.0 made) (h.true_entries u)
          (insert_cases t u true true s.sat e);
    false_entries =
        λ u e. ⊎_elim (λ same. cc same.1) (h.false_entries u) (insert_cases t u true false s.sat e);
  }
  IsExact-insert t false s a h not_made = record {
    true_entries =
        λ u e. ⊎_elim (λ same. cc same.1) (h.true_entries u) (insert_cases t u false true s.sat e);
    false_entries = λ u e.
        ⊎_elim (λ same. subst (λ v. ¬ CanMake env v) same.0 not_made) (h.false_entries u)
          (insert_cases t u false false s.sat e);
  }

  -- The memo is right, and the rules under way are those of `active`.
  pub record Good (active : List (Ref × Bool)) (s : Driver) : Type 0 where
    pub exact : IsExact s
    pub same : (u : Ref) → flag u s.sat_active ≡ flag u active

  abbrev pub Fails : Error → Driver → Type 0
  Fails e s = ⊥

  abbrev Within : Str → List Ref → Type 0
  Within p cs = (c : Ref) → Memᴰ c cs → Memᴰ c (candidates_for env p)

  -- The rules for the path that are not to come any more cannot be made.
  abbrev Failed : Str → List Ref → Type 0
  Failed p cs = (c : Ref) → Memᴰ c (candidates_for env p) → Memᴰ c cs ⊎ (¬ CanMake env c)

  module _ (active : List (Ref × Bool)) where
    abbrev pub Answers : Ref → Bool → Driver → Type 0
    Answers t b s = Good active s × Truth t b

    record Tries (p : Str) (cs : List Ref) (s : Driver) : Type 0 where
      good : Good active s
      within : Within p cs
      failed : Failed p cs

    record Left (t : Ref) (ps : List Str) (s : Driver) : Type 0 where
      good : Good active s
      within : (p : Str) → Memᴰ p ps → Memᴰ p (target_of env t).inputs
      enough : CanHaveAll env ps → CanMake env t

    abbrev HaveTruth : Str → Bool → Type 0
    HaveTruth p b = pick b (CanHave env p) (¬ CanHave env p)

    module _ (self : Ref → M Bool) (p : Str)
        (ih : (c : Ref)
          → Memᴰ c (candidates_for env p)
          → Triple (Good active) (self c) (Answers c) Fails) where
      try-decides :
          (c : Ref) (rest : List Ref)
          → Triple
              (Tries p (c ∷ rest))
              (self c)
              (λ b s. pick b (Good active s × CanHave env p) (Tries p rest s))
              Fails
      try-decides c rest =
          triple_given {F = Within p (c ∷ rest)} (λ s h. h.within)
            λ within.
              triple_given {F = Failed p (c ∷ rest)} (λ s h. h.failed)
                λ failed.
                  triple_pre (λ s h. h.good)
                    (triple_post
                      (elim [
                        | true ↦ λ s h. (h.0, by_rule p c (within c (Memᴰ.head refl)) h.1)
                        | false ↦ λ s h. record {
                          good = h.0;
                          within = λ d m. within d (Memᴰ.tail m);
                          failed = λ d m.
                              ⊎_elim
                                (λ left.
                                  ⊎_elim (λ e. inr (subst (λ v. ¬ CanMake env v) (sym e) h.1)) inl
                                    (Memᴰ.cases_cons left))
                                inr (failed d m);
                        }
                      ])
                      (λ e s h. h) (ih c (within c (Memᴰ.head refl))))

      by_job_or_not :
          stat_exists env p ≡ false
          → (b : Bool) → b ≡ is_some (external_dep env p)
          → Triple (Tries p []) (pure b) (λ b s. Good active s × HaveTruth p b) Fails
      by_job_or_not off true e = triple_pre (λ s h. (h.good, by_job p (sym e))) (triple_pure true)
      by_job_or_not off false e =
          triple_pre
            (λ s h. (
              h.good,
              λ got.
                  ⊎_elim (λ on. cc)
                    (⊎_elim (λ (c, m, made). ⊎_elim Memᴰ.not-nil (λ f. f made) (h.failed c m))
                      (λ job. cc))
                    (CanHave-cases env p got),
            ))
            (triple_pure false)

      input-decides :
          Triple
            (Good active)
            (input_satisfiable env self p)
            (λ b s. Good active s × HaveTruth p b)
            Fails
      unfolding input_satisfiable
      input-decides =
          triple_if (stat_exists env p)
            (λ e. triple_pre (λ s h. (h, on_disk p e)) (triple_pure true))
            (λ off.
              triple_bind
                (triple_pre (λ s h. record { good = h; within = λ c m. m; failed = λ c m. inl m })
                  (triple_any_of (Tries p) self (λ s. Good active s × CanHave env p) try-decides
                    (candidates_for env p)))
                (elim [ true ↦ triple_pure true | false ↦ by_job_or_not off _ refl ]))

  -- The rules under way stand above `t`, and `self` decides every rule below `t`.
  module _ (rank : Ref → ℕ) (ranked : IsRanked env rank) where
    abbrev pub Above : ℕ → List (Ref × Bool) → Type 0
    Above n active = (u : Ref) → flag u active ≡ true → n < rank u

    pub Above-nil : (n : ℕ) → Above n []
    unfolding lookup
    Above-nil n u e = absurd (cc e)

    abbrev pub Decider : (Ref → M Bool) → ℕ → Type 0
    Decider self bound =
        (c : Ref) (active : List (Ref × Bool))
        → rank c < bound
        → Above (rank c) active
        → Triple (Good active) (self c) (Answers active c) Fails

    pub Above-insert :
        (t : Ref) (n : ℕ) (active : List (Ref × Bool))
        → n < rank t
        → Above (rank t) active
        → Above n (insert t true active)
    Above-insert t n active low above u e = elim (Bool-cases (t == u)) [
      | inl same ↦ rw (← (eq_iff t u).0 same) low
      | inr other ↦ omega (arith, above u (rw other at (sym (flag-insert t u true active) ∙ e)))
    ]

    pub not_active :
        (t : Ref) (active : List (Ref × Bool)) → Above (rank t) active → flag t active ≡ false
    not_active t active above = elim (Bool-cases (flag t active)) [
      | inl e ↦ absurd (omega (arith, above t e))
      | inr e ↦ e
    ]

    pub flag_restored :
        (t u : Ref) (active now : List (Ref × Bool))
        → flag t active ≡ false
        → flag u now ≡ flag u (insert t true active)
        → flag u (remove t now) ≡ flag u active
    flag_restored t u active now off h =
        ground (arith, flag-remove t u now, flag-insert t u true active, eq_iff t u)

    module _ (self : Ref → M Bool) (t : Ref) (active : List (Ref × Bool))
        (above : Above (rank t) active) (ih : Decider self (rank t)) where
      abbrev inner : List (Ref × Bool)
      inner = insert t true active

      ih_input :
          (p : Str)
          → Memᴰ p (target_of env t).inputs
          → Triple
              (Good inner)
              (input_satisfiable env self p)
              (λ b s. Good inner s × HaveTruth inner p b)
              Fails
      ih_input p m = input-decides inner self p λ c mc.
          let low = ranked t p c m mc in ih c inner low (Above-insert t (rank c) active low above)

      input-step :
          (p : Str) (rest : List Str)
          → Triple
              (Left inner t (p ∷ rest))
              (input_satisfiable env self p)
              (λ b s. pick b (Left inner t rest s) (Good inner s × (¬ CanMake env t)))
              Fails
      input-step p rest =
          triple_given (λ s h. h.within)
            λ within.
              triple_given (λ s h. h.enough)
                λ enough.
                  triple_pre (λ s h. h.good)
                    (triple_post
                      (elim [
                        | true ↦ λ s h. record {
                          good = h.0;
                          within = λ q m. within q (Memᴰ.tail m);
                          enough = λ all. enough (have p rest h.1 all);
                        }
                        | false ↦ λ s h. (
                          h.0,
                          λ made. h.1 (CanMake-input env t p made (within p (Memᴰ.head refl))),
                        )
                      ])
                      (λ e s h. h) (ih_input p (within p (Memᴰ.head refl))))

      loop-Truth :
          (b : Bool) (s : Driver)
          → pick b (Left inner t [] s) (Good inner s × (¬ CanMake env t))
          → Good inner s × Truth t b
      loop-Truth true s h = (h.good, h.enough none_left)
      loop-Truth false s h = h

      examine-decides : Triple (Good active) (examine env self t) (Answers active t) Fails
      unfolding examine
      examine-decides =
          triple_bind
            (triple_modify (Left inner t (target_of env t).inputs) _ (λ s h. record {
              good = record {
                exact = record {
                  true_entries = h.exact.true_entries;
                  false_entries = h.exact.false_entries;
                };
                same = λ u.
                    flag-insert t u true s.sat_active
                    ∙ (ap (λ b. if t == u then true else b) (h.same u)
                        ∙ sym (flag-insert t u true active));
              };
              within = λ p m. m;
              enough = make t;
            }))
            λ _.
              triple_bind
                (triple_post loop-Truth (λ e s h. h)
                  (triple_all_of (Left inner t) (input_satisfiable env self)
                    (λ s. Good inner s × (¬ CanMake env t)) input-step (target_of env t).inputs))
                λ b.
                  triple_bind
                    (triple_modify (Answers active t b) _ (λ s h. (
                      record {
                        exact = IsExact-insert t b s _ h.0.exact h.1;
                        same = λ u.
                            flag_restored t u active s.sat_active (not_active t active above)
                              (h.0.same u);
                      },
                      h.1,
                    )))
                    λ _. triple_pure b

      known-decides :
          (now : Driver) (v : Option Bool) (busy : Bool)
          → lookup t now.sat ≡ v
          → flag t now.sat_active ≡ busy
          → Triple
              (λ s. (s ≡ now) × Good active s)
              (unless_known v busy (examine env self t))
              (Answers active t)
              Fails
      known-decides now (some true) busy e f =
          triple_pre
            (λ s h. (h.1, h.1.exact.true_entries t (ap (λ (d : Driver). lookup t d.sat) h.0 ∙ e)))
            (triple_pure true)
      known-decides now (some false) busy e f =
          triple_pre
            (λ s h. (h.1, h.1.exact.false_entries t (ap (λ (d : Driver). lookup t d.sat) h.0 ∙ e)))
            (triple_pure false)
      known-decides now none true e f = triple_never λ s h.
          let busy = ap (λ (d : Driver). flag t d.sat_active) h.0 ∙ f in
          cc (busy, h.1.same t, not_active t active above)
      known-decides now none false e f = triple_pre (λ s h. h.1) examine-decides

    -- From a right memo, with no rule under way at or below `t`, `satisfiable` returns, and says
    -- whether `t` can be made.
    pub satisfiable-decides : (depth : ℕ) → Decider (satisfiable env depth) depth
    unfolding satisfiable
    satisfiable-decides zero t active low above = absurd (omega arith)
    satisfiable-decides (suc depth) t active low above =
        triple_bind
          (triple_gets {Q = λ now s. (s ≡ now) × Good active s} (λ s. s) (λ s h. (refl, h)))
          λ now.
            known-decides (satisfiable env depth) t active above
              (λ c a lower free. satisfiable-decides depth c a (omega arith) free) now
              (lookup t now.sat) (flag t now.sat_active) refl refl
