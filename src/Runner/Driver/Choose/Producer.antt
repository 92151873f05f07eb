-- ===== src/Runner/Driver/Choose/Producer.antt =====
-- driver.go: what `producerFor` picks and what it writes, against a description of the choice.
use mathlib.Core.List.{Memᴰ, head?}
use mathlib.Core.List.Memᴰ
use mathlib.Core.Logic.{⊎_elim}
use cgpipe.Prelude.{
  ℕ, zero, suc, ◌<◌, List, [], ◌∷◌, Bool, true, false, Option, none, some, list_eq, nat_eq, ◌≡◌,
  refl, ◌∙◌, sym, ap, subst, ◌⊎◌, inl, inr,
}
use cgpipe.Prelude.Assoc.{lookup, insert, remove, insert_cases}
use cgpipe.Exec.Triple.{
  Triple, triple_pure, triple_fail, triple_gets, triple_pre, triple_given, triple_post, triple_if,
  triple_bind, triple_modify, pick, triple_all_of, triple_any_of, triple_first_of, Found,
  triple_and, triple_from,
}
use cgpipe.Text.{Str}
use cgpipe.Runner.Driver.{
  Ref, ref_eq, out_of_fuel, Env, Driver, M, target_of, candidates_for, stat_exists,
}
use cgpipe.Runner.Driver.Choose.{
  input_satisfiable, examine, unless_known, satisfiable, or_first, choose, unless_chosen,
  producer_for,
}
use cgpipe.Runner.Driver.Choose.Sound.{CanMake}
use cgpipe.Runner.Driver.Choose.Decides.{IsRanked, Good, Fails, satisfiable-decides, Above-nil}

-- The first rule of the list that can be made.
pub data IsFirst (env : Env) : List Ref → Ref → Type 0 where
  here : {c : Ref} {cs : List Ref} → CanMake env c → IsFirst env (c ∷ cs) c
  later : {c d : Ref} {cs : List Ref} → ¬ CanMake env d → IsFirst env cs c → IsFirst env (d ∷ cs) c

-- The rule to take from a list: the first that can be made, or the first of all if none can.
pub data IsChoice (env : Env) (cands : List Ref) (r : Option Ref) : Type 0 where
  can : (c : Ref) → IsFirst env cands c → r ≡ some c → IsChoice env cands r
  cannot : ((c : Ref) → Memᴰ c cands → ¬ CanMake env c) → r ≡ head? cands → IsChoice env cands r

is_first_mem : {env : Env} {cs : List Ref} {c : Ref} → IsFirst env cs c → Memᴰ c cs
is_first_mem (here h) = Memᴰ.head refl
is_first_mem (later h f) = Memᴰ.tail (is_first_mem f)

head_mem : (cs : List Ref) (c : Ref) → some c ≡ head? cs → Memᴰ c cs
head_mem [] c e = cc
head_mem (d ∷ cs) c e = Memᴰ.head (cc)

-- What is chosen is one of the rules.
pub choice_mem :
    {env : Env} (cands : List Ref) (c : Ref) → IsChoice env cands (some c) → Memᴰ c cands
choice_mem cands c (can d first e) =
    let same : d ≡ c = cc in subst (λ v. Memᴰ v cands) same (is_first_mem first)
choice_mem cands c (cannot _ e) = head_mem cands c e

module _ (env : Env) where
  -- The driver without the memo and the marks of `satisfiable`.
  abbrev pub rest_of : Driver → Driver
  rest_of s = record s { sat = []; sat_active = [] }

  abbrev Same : Driver → Driver → Type 0
  Same d s = rest_of s ≡ rest_of d

  module _ (d : Driver) (self : Ref → M Bool)
      (ih : (c : Ref) → Triple (Same d) (self c) (λ _. Same d) (λ _. Same d)) where
    either : (b : Bool) (s : Driver) → Same d s → pick b (Same d s) (Same d s)
    either true s h = h
    either false s h = h

    or_else : (b : Bool) (s : Driver) → pick b (Same d s) (Same d s) → Same d s
    or_else true s h = h
    or_else false s h = h

    input-keeps :
        (p : Str) → Triple (Same d) (input_satisfiable env self p) (λ _. Same d) (λ _. Same d)
    unfolding input_satisfiable
    input-keeps p =
        triple_if (stat_exists env p) (λ _. triple_pure true)
          λ _.
            triple_bind
              (triple_post or_else (λ e s h. h)
                (triple_any_of (λ _. Same d) self (Same d)
                  (λ c rest. triple_post either (λ e s h. h) (ih c)) (candidates_for env p)))
              λ b. triple_pure _

    examine-keeps : (t : Ref) → Triple (Same d) (examine env self t) (λ _. Same d) (λ _. Same d)
    unfolding examine
    examine-keeps t = triple_bind (triple_modify (Same d) _ (λ s h. h)) λ _.
        triple_bind
          (triple_post or_else (λ e s h. h)
            (triple_all_of (λ _. Same d) (input_satisfiable env self) (Same d)
              (λ p rest. triple_post either (λ e s h. h) (input-keeps p)) (target_of env t).inputs))
          λ b.
            triple_bind
              (triple_modify (Same d)
                (λ s. record s { sat_active = remove t s.sat_active; sat = insert t b s.sat })
                (λ s h. h))
              λ _. triple_pure b

    known-keeps :
        (t : Ref) (v : Option Bool) (busy : Bool)
        → Triple (Same d) (unless_known v busy (examine env self t)) (λ _. Same d) (λ _. Same d)
    known-keeps t (some v) busy = triple_pure v
    known-keeps t none true = triple_pure false
    known-keeps t none false = examine-keeps t

  pub satisfiable-keeps :
      (d : Driver) (depth : ℕ) (t : Ref)
      → Triple (Same d) (satisfiable env depth t) (λ _. Same d) (λ _. Same d)
  unfolding satisfiable
  satisfiable-keeps d zero t = triple_fail out_of_fuel
  satisfiable-keeps d (suc depth) t =
      triple_bind (triple_gets {Q = λ _ s. Same d s} (λ s. s) (λ s h. h))
        λ now. known-keeps d (satisfiable env depth) (satisfiable-keeps d depth) t _ _

  -- The memo is right, no rule is under way, and every choice that is kept is the one to make.
  pub record IsChosen (s : Driver) : Type 0 where
    pub good : Good env [] s
    pub choices :
        (p : Str) (r : Option Ref)
        → lookup p s.chosen ≡ some r
        → IsChoice env (candidates_for env p) r

  -- The driver without the memos of the choice.
  abbrev pub work_of : Driver → Driver
  work_of s = record s { sat = []; sat_active = []; chosen = [] }

  module _ (rank : Ref → ℕ) (ranked : IsRanked env rank) (depth : ℕ) where
    -- The fuel is enough for each rule that makes the path.
    abbrev pub Fits : Str → Type 0
    Fits p = (c : Ref) → Memᴰ c (candidates_for env p) → rank c < depth

    module _ (p : Str) (fits : Fits p) (d : Driver) where
      abbrev cands : List Ref
      cands = candidates_for env p

      abbrev Promise : List Ref → Type 0
      Promise cs = (c : Ref) → IsFirst env cs c → IsFirst env cands c

      abbrev Failed : List Ref → Type 0
      Failed cs = (c : Ref) → Memᴰ c cands → Memᴰ c cs ⊎ (¬ CanMake env c)

      abbrev Inside : List Ref → Type 0
      Inside cs = (c : Ref) → Memᴰ c cs → Memᴰ c cands

      record Tries (cs : List Ref) (s : Driver) : Type 0 where
        good : Good env [] s
        same : Same d s
        inside : Inside cs
        promise : Promise cs
        failed : Failed cs

      abbrev Takes : Ref → Driver → Type 0
      Takes c s = Good env [] s × Same d s × IsFirst env cands c

      try-Takes :
          (c : Ref) (rest : List Ref)
          → Triple
              (Tries (c ∷ rest))
              (satisfiable env depth c)
              (λ b s. pick b (Takes c s) (Tries rest s))
              (Fails env)
      try-Takes c rest =
          triple_given {F = Inside (c ∷ rest)} (λ s h. h.inside)
            λ inside.
              triple_given {F = Promise (c ∷ rest)} (λ s h. h.promise)
                λ promise.
                  triple_given {F = Failed (c ∷ rest)} (λ s h. h.failed)
                    λ failed.
                      triple_pre (λ s h. (h.good, h.same))
                        (triple_post
                          (elim [
                            | true ↦ λ s h. (h.0.0, h.1, promise c (here h.0.1))
                            | false ↦ λ s h. record {
                              good = h.0.0;
                              same = h.1;
                              inside = λ v m. inside v (Memᴰ.tail m);
                              promise = λ v f. promise v (later h.0.1 f);
                              failed = λ v m.
                                  ⊎_elim
                                    (λ left.
                                      ⊎_elim (λ e. inr (subst (λ u. ¬ CanMake env u) (sym e) h.0.1))
                                        inl (Memᴰ.cases_cons left))
                                    inr (failed v m);
                            }
                          ])
                          (λ e s h. h.0)
                          (triple_and
                            (satisfiable-decides env rank ranked depth c []
                              (fits c (inside c (Memᴰ.head refl)))
                              (Above-nil env rank ranked (rank c)))
                            (satisfiable-keeps d depth c)))

      abbrev Settled : Option Ref → Driver → Type 0
      Settled r s = Good env [] s × Same d s × IsChoice env cands r

      settle :
          (found : Option Ref) (s : Driver)
          → Found (Tries []) Takes found s
          → Settled (or_first found cands) s
      settle none s h = (
        h.good,
        h.same,
        cannot (λ c m. ⊎_elim (λ left. absurd (Memᴰ.not-nil left)) (λ f. f) (h.failed c m)) refl,
      )
      settle (some c) s h = (h.0, h.1, can c h.2 refl)

      abbrev Outcome : Option Ref → Driver → Type 0
      Outcome r s = IsChosen s × (work_of s ≡ work_of d) × IsChoice env cands r

      choose-settles :
          (known : (q : Str) (r : Option Ref)
            → lookup q d.chosen ≡ some r
            → IsChoice env (candidates_for env q) r)
          → Triple (λ s. Good env [] s × Same d s) (choose env depth p) Outcome (Fails env)
      unfolding choose
      choose-settles known =
          triple_bind
            (triple_post settle (λ e s h. h)
              (triple_pre
                (λ s h. record {
                  good = h.0;
                  same = h.1;
                  inside = λ c m. m;
                  promise = λ c f. f;
                  failed = λ c m. inl m;
                })
                (triple_first_of Tries (satisfiable env depth) Takes try-Takes cands)))
            λ found.
              triple_bind
                (triple_modify (Outcome (or_first found cands)) _ (λ s h. (
                  record {
                    good = record {
                      exact = record {
                        true_entries = h.0.exact.true_entries;
                        false_entries = h.0.exact.false_entries;
                      };
                      same = h.0.same;
                    };
                    choices = λ q r e.
                        ⊎_elim
                          (λ same. subst (IsChoice env (candidates_for env q)) same.1 (
                            subst (λ v. IsChoice env (candidates_for env v) (or_first found cands))
                              same.0 h.2))
                          (λ old.
                            known q r (ap (λ (x : Driver). lookup q x.chosen) (sym h.1) ∙ old))
                          (insert_cases p q (or_first found cands) r s.chosen e);
                  },
                  ap work_of h.1,
                  h.2,
                )))
                λ _. triple_pure _

      chosen-settles :
          IsChosen d
          → (c : Option (Option Ref)) → lookup p d.chosen ≡ c
          → Triple (λ s. s ≡ d) (unless_chosen c (choose env depth p)) Outcome (Fails env)
      chosen-settles h none e =
          triple_pre (λ s at_d. (rw at_d h.good, ap rest_of at_d)) (choose-settles h.choices)
      chosen-settles h (some r) e =
          triple_pre (λ s at_d. (rw at_d h, ap work_of at_d, h.choices p r e)) (triple_pure r)

    abbrev pub Picks : Str → Driver → Option Ref → Driver → Type 0
    Picks p d r s = IsChosen s × (work_of s ≡ work_of d) × IsChoice env (candidates_for env p) r

    -- From right memos `producerFor` returns the first rule that can be made, or else the first
    -- rule, keeps the memos right, and changes nothing else of the driver.
    pub producer_for-Picks :
        (p : Str) (d : Driver)
        → Fits p
        → Triple (λ s. (s ≡ d) × IsChosen s) (producer_for env depth p) (Picks p d) (Fails env)
    unfolding producer_for
    producer_for-Picks p d fits =
        triple_bind
          (triple_gets {Q = λ now s. (now ≡ d) × (s ≡ d) × IsChosen s} (λ s. s)
            (λ s h. (h.0, h.0, h.1)))
          λ now.
            triple_given {F = now ≡ d} (λ s h. h.0)
              λ now_d. triple_from λ s h.
                triple_pre (λ s' e. e ∙ h.1)
                  (chosen-settles p fits d (subst IsChosen h.1 h.2) (lookup p now.chosen)
                    (ap (λ (x : Driver). lookup p x.chosen) (sym now_d)))
