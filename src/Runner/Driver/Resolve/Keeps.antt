-- ===== src/Runner/Driver/Resolve/Keeps.antt =====
-- What `producerFor` and `resolve` of driver.go leave alone.
use cgpipe.Prelude.{
  ℕ, zero, suc, List, Bool, true, false, Option, none, some, list_eq, nat_eq, ◌≡◌, ◌∙◌, ap,
}
use cgpipe.Prelude.Assoc.{lookup, insert, remove, flag}
use cgpipe.Exec.{Exec}
use cgpipe.Exec.Triple.{
  Triple, triple_pure, triple_fail, triple_gets, triple_pre, triple_post, triple_bind,
  triple_modify, triple_for_each, triple_finally, triple_lift, triple_from, triple_first_of, Found,
  pick,
}
use cgpipe.Text.{Str}
use cgpipe.Runner.Driver.{
  Ref, ref_eq, Error, cycle, out_of_fuel, Env, Driver, M, Resolved, target_of, candidates_for,
}
use cgpipe.Runner.Driver.Choose.{satisfiable, or_first, choose, unless_chosen, producer_for}
use cgpipe.Runner.Driver.Choose.Producer.{rest_of, satisfiable-keeps}
use cgpipe.Runner.Driver.Resolve.{
  Scan, no_inputs, after_file, finish, scan_made, scan_input, decide, unless_resolved, resolve,
}
use cgpipe.Runner.Driver.Resolve.Correct.{jobs_of}

module _ (env : Env) (d : Driver) where
  abbrev pub SameJobs : Driver → Type 0
  SameJobs s = jobs_of env s ≡ jobs_of env d

  abbrev pub KeepsJobs {ℓ} : {A : Type ℓ} → Exec Driver Error A → Type ℓ
  KeepsJobs m = Triple SameJobs m (λ _. SameJobs) (λ _. SameJobs)

  satisfiable-jobs : (depth : ℕ) (c : Ref) → KeepsJobs (satisfiable env depth c)
  satisfiable-jobs depth c = triple_from λ now h.
      triple_pre (λ s e. ap (rest_of env) e)
        (triple_post (λ b s e. ap (jobs_of env) e ∙ h) (λ x s e. ap (jobs_of env) e ∙ h)
          (satisfiable-keeps env now depth c))

  either : (c : Ref) (b : Bool) (s : Driver) → SameJobs s → pick b (SameJobs s) (SameJobs s)
  either c true s h = h
  either c false s h = h

  or_none : (r : Option Ref) (s : Driver) → Found SameJobs (λ _. SameJobs) r s → SameJobs s
  or_none none s h = h
  or_none (some c) s h = h

  choose-jobs : (depth : ℕ) (p : Str) → KeepsJobs (choose env depth p)
  unfolding choose
  choose-jobs depth p =
      triple_bind
        (triple_post or_none (λ e s h. h)
          (triple_first_of (λ _. SameJobs) (satisfiable env depth) (λ _. SameJobs)
            (λ c rest. triple_post (either c) (λ e s h. h) (satisfiable-jobs depth c))
            (candidates_for env p)))
        λ found.
          triple_bind
            (triple_modify SameJobs
              (λ s. record s { chosen = insert p (or_first found (candidates_for env p)) s.chosen })
              (λ s h. h))
            λ _. triple_pure (or_first found (candidates_for env p))

  chosen-jobs :
      (depth : ℕ) (p : Str) (c : Option (Option Ref))
      → KeepsJobs (unless_chosen c (choose env depth p))
  chosen-jobs depth p none = choose-jobs depth p
  chosen-jobs depth p (some r) = triple_pure r

  pub producer_for-jobs : (depth : ℕ) (p : Str) → KeepsJobs (producer_for env depth p)
  unfolding producer_for
  producer_for-jobs depth p =
      triple_bind (triple_gets {Q = λ _ s. SameJobs s} (λ s. s) (λ s h. h))
        λ now. chosen-jobs depth p (lookup p now.chosen)

  module _ (depth : ℕ) (self : Ref → M Resolved) (ih : (c : Ref) → KeepsJobs (self c))
      (t : Ref) where
    abbrev outs : List Str
    outs = (target_of env t).outputs

    made-jobs :
        (acc : Scan) (p : Str) (r : Option Ref) → KeepsJobs (scan_made env self outs acc p r)
    unfolding scan_made
    made-jobs acc p (some c) = triple_bind (ih c) λ sub. triple_pure _
    made-jobs acc p none = triple_lift (after_file env outs acc p) (λ a e s h. h) (λ x e s h. h)

    scan-jobs : (acc : Scan) (p : Str) → KeepsJobs (scan_input env depth self outs acc p)
    unfolding scan_input
    scan-jobs acc p = triple_bind (producer_for-jobs depth p) λ r. made-jobs acc p r

    decide-jobs : KeepsJobs (decide env depth self t)
    unfolding decide
    decide-jobs =
        triple_finally (λ s. record s { resolving = remove t s.resolving }) (λ r s h. h)
          (λ e s h. h)
          (triple_bind
            (triple_modify SameJobs (λ s. record s { resolving = insert t true s.resolving })
              (λ s h. h))
            λ _.
              triple_bind
                (triple_for_each (λ _ _. SameJobs) (scan_input env depth self outs)
                  (λ p rest acc. scan-jobs acc p) (target_of env t).inputs no_inputs)
                λ acc.
                  triple_bind
                    (triple_modify SameJobs
                      (λ s. record s { memo = insert t (finish env (target_of env t) acc) s.memo })
                      (λ s h. h))
                    λ _. triple_pure (finish env (target_of env t) acc))

    known-jobs :
        (v : Option Resolved) (busy : Bool)
        → KeepsJobs (unless_resolved v busy outs (decide env depth self t))
    known-jobs (some r) busy = triple_pure r
    known-jobs none true = triple_fail (cycle outs)
    known-jobs none false = decide-jobs

  pub resolve-jobs : (depth fuel : ℕ) (t : Ref) → KeepsJobs (resolve env depth fuel t)
  unfolding resolve
  resolve-jobs depth zero t = triple_fail out_of_fuel
  resolve-jobs depth (suc fuel) t =
      triple_bind (triple_gets {Q = λ _ s. SameJobs s} (λ s. s) (λ s h. h)) λ now.
        known-jobs depth (resolve env depth fuel) (resolve-jobs depth fuel) t (lookup t now.memo)
          (flag t now.resolving)
