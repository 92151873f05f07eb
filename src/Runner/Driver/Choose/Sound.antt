-- ===== src/Runner/Driver/Choose/Sound.antt =====
-- What can be made, as derivations, and the answers of `satisfiable` of driver.go.
use mathlib.Core.List.{Memᴰ}
use mathlib.Core.Logic.{⊎_elim}
use mathlib.Core.Path.{subst}
use cgpipe.Prelude.{
  ℕ, zero, suc, List, [], ◌∷◌, Bool, true, false, Option, none, some, list_eq, nat_eq, ◌≡◌, refl,
  ◌∙◌, sym, ap,
}
use cgpipe.Prelude.Assoc.{lookup, insert, remove, flag, insert_cases}
use cgpipe.Exec.{pure}
use cgpipe.Exec.Triple.{
  Triple, triple_pure, triple_fail, triple_gets, triple_pre, triple_given, triple_post, triple_if,
  triple_bind, triple_modify, pick, triple_all_of, triple_any_of,
}
use cgpipe.Text.{Str}
use cgpipe.Runner.Driver.{
  Ref, ref_eq, Error, out_of_fuel, Env, Driver, M, target_of, candidates_for, stat_exists,
  external_dep, is_some,
}
use cgpipe.Runner.Driver.Choose.{input_satisfiable, examine, unless_known, satisfiable}

-- A rule can be made when each of its inputs can be had: on disk, by a rule that can be made, or
-- from a job of the ledger. A derivation is finite, so no rule stands on itself.
mutual
  pub data CanMake (env : Env) : Ref → Type 0 where
    make : (t : Ref) → CanHaveAll env (target_of env t).inputs → CanMake env t

  pub data CanHave (env : Env) : Str → Type 0 where
    on_disk : (p : Str) → stat_exists env p ≡ true → CanHave env p
    by_rule : (p : Str) (c : Ref) → Memᴰ c (candidates_for env p) → CanMake env c → CanHave env p
    by_job : (p : Str) → is_some (external_dep env p) ≡ true → CanHave env p

  pub data CanHaveAll (env : Env) : List Str → Type 0 where
    none_left : CanHaveAll env []
    have : (p : Str) (ps : List Str) → CanHave env p → CanHaveAll env ps → CanHaveAll env (p ∷ ps)

module _ (env : Env) where
  -- What the memo calls satisfiable can be made.
  pub record IsSound (s : Driver) : Type 0 where
    pub true_entries : (t : Ref) → lookup t s.sat ≡ some true → CanMake env t

  abbrev Errs : Error → Driver → Type 0
  Errs e s = IsSound s

  abbrev Says : Ref → Bool → Driver → Type 0
  Says t b s = pick b (IsSound s × CanMake env t) (IsSound s)

  abbrev SaysHave : Str → Bool → Driver → Type 0
  SaysHave p b s = pick b (IsSound s × CanHave env p) (IsSound s)

  -- The items still to come are enough for the whole.
  record Left (t : Ref) (ps : List Str) (s : Driver) : Type 0 where
    sound : IsSound s
    enough : CanHaveAll env ps → CanMake env t

  record Tries (p : Str) (cs : List Ref) (s : Driver) : Type 0 where
    sound : IsSound s
    within : (c : Ref) → Memᴰ c cs → Memᴰ c (candidates_for env p)

  module _ (self : Ref → M Bool) (ih : (c : Ref) → Triple IsSound (self c) (Says c) Errs) where
    try-IsSound :
        (p : Str) (c : Ref) (rest : List Ref)
        → Triple
            (Tries p (c ∷ rest))
            (self c)
            (λ b s. pick b (IsSound s × CanHave env p) (Tries p rest s))
            Errs
    try-IsSound p c rest =
        triple_given (λ s h. h.within)
          λ within.
            triple_pre (λ s h. h.sound)
              (triple_post
                (elim [
                  | true ↦ λ s h. (h.0, by_rule p c (within c (Memᴰ.head refl)) h.1)
                  | false ↦ λ s h. record { sound = h; within = λ d m. within d (Memᴰ.tail m) }
                ])
                (λ e s h. h) (ih c))

    by_job_or_not :
        (p : Str) (b : Bool)
        → b ≡ is_some (external_dep env p)
        → Triple (Tries p []) (pure b) (SaysHave p) Errs
    by_job_or_not p true e = triple_pre (λ s h. (h.sound, by_job p (sym e))) (triple_pure true)
    by_job_or_not p false e = triple_pre (λ s h. h.sound) (triple_pure false)

    input-IsSound : (p : Str) → Triple IsSound (input_satisfiable env self p) (SaysHave p) Errs
    unfolding input_satisfiable
    input-IsSound p =
        triple_if (stat_exists env p) (λ e. triple_pre (λ s h. (h, on_disk p e)) (triple_pure true))
          (λ _.
            triple_bind
              (triple_pre (λ s h. record { sound = h; within = λ c m. m })
                (triple_any_of (Tries p) self (λ s. IsSound s × CanHave env p) (try-IsSound p)
                  (candidates_for env p)))
              (elim [ true ↦ triple_pure true | false ↦ by_job_or_not p _ refl ]))

    input-step :
        (t : Ref) (p : Str) (rest : List Str)
        → Triple
            (Left t (p ∷ rest))
            (input_satisfiable env self p)
            (λ b s. pick b (Left t rest s) (IsSound s))
            Errs
    input-step t p rest =
        triple_given (λ s h. h.enough)
          λ enough.
            triple_pre (λ s h. h.sound)
              (triple_post
                (elim [
                  | true ↦
                      λ s h. record { sound = h.0; enough = λ all. enough (have p rest h.1 all) }
                  | false ↦ λ s h. h
                ])
                (λ e s h. h) (input-IsSound p))

    -- The memo is written with the answer that the loop gave.
    record_answer :
        (t : Ref) (b : Bool) (s : Driver)
        → pick b (Left t [] s) (IsSound s)
        → Says t b (record s { sat_active = remove t s.sat_active; sat = insert t b s.sat })
    record_answer t true s h =
        let made = h.enough none_left in
        (
          record {
            true_entries = λ u e.
                ⊎_elim (λ same. subst (CanMake env) same.0 made) (h.sound.true_entries u)
                  (insert_cases t u true true s.sat e);
          },
          made,
        )
    record_answer t false s h = record {
      true_entries = λ u e.
          ⊎_elim (λ same. cc same.1) (h.true_entries u) (insert_cases t u false true s.sat e);
    }

    examine-IsSound : (t : Ref) → Triple IsSound (examine env self t) (Says t) Errs
    unfolding examine
    examine-IsSound t =
        triple_bind
          (triple_modify (Left t (target_of env t).inputs) _
            (λ s h. record { sound = record { true_entries = h.true_entries }; enough = make t }))
          λ _.
            triple_bind
              (triple_all_of (Left t) (input_satisfiable env self) IsSound (input-step t)
                (target_of env t).inputs)
              λ b. triple_bind (triple_modify (Says t b) _ (record_answer t b)) λ _. triple_pure b

    known-IsSound :
        (t : Ref) (now : Driver) (v : Option Bool) (active : Bool)
        → lookup t now.sat ≡ v
        → Triple
            (λ s. (s ≡ now) × IsSound s)
            (unless_known v active (examine env self t))
            (Says t)
            Errs
    known-IsSound t now (some true) active e =
        triple_pre (λ s h. (h.1, h.1.true_entries t (ap (λ (d : Driver). lookup t d.sat) h.0 ∙ e)))
          (triple_pure true)
    known-IsSound t now (some false) active e = triple_pre (λ s h. h.1) (triple_pure false)
    known-IsSound t now none true e = triple_pre (λ s h. h.1) (triple_pure false)
    known-IsSound t now none false e = triple_pre (λ s h. h.1) (examine-IsSound t)

  -- From a sound memo, with any depth and any goals under way, `satisfiable` answers true only of a
  -- rule that can be made, and leaves a sound memo, also where it fails.
  pub satisfiable-IsSound :
      (depth : ℕ) (t : Ref) → Triple IsSound (satisfiable env depth t) (Says t) Errs
  unfolding satisfiable
  satisfiable-IsSound zero t = triple_pre (λ s h. h) (triple_fail out_of_fuel)
  satisfiable-IsSound (suc depth) t =
      triple_bind (triple_gets {Q = λ now s. (s ≡ now) × IsSound s} (λ s. s) (λ s h. (refl, h)))
        λ now.
          known-IsSound (satisfiable env depth) (satisfiable-IsSound depth) t now (lookup t now.sat)
            (flag t now.sat_active) refl
