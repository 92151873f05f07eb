-- ===== src/Runner/Driver/Submit/Once.antt =====
-- driver.go: how often `submit` and `submitArrayGroup` hand a target to the backend.
use cgpipe.Prelude.{
  ℕ, zero, suc, List, [], ◌∷◌, true, false, Option, none, some, list_eq, nat_eq, if◌then◌else◌, ◌≡◌,
  refl, ◌∙◌, sym, ap, ◌==◌,
}
use cgpipe.Prelude.Assoc.{lookup, insert, flag}
use cgpipe.Exec.{Exec, pure, ◌>>=◌, for_each}
use cgpipe.Exec.Triple.{
  Triple, triple_pure, triple_fail, triple_gets, triple_pre, triple_post, triple_given, triple_bind,
  triple_modify, triple_for_each, triple_from, triple_if,
}
use cgpipe.Text.{Str}
use cgpipe.Runner.Target.{pos_eq, Pos}
use cgpipe.Runner.Driver.{
  Ref, ref_eq, Error, not_array_capable, out_of_fuel, Env, Driver, M, array_submitted, SubmitArray,
  ArrayGroup, Arrays,
}
use cgpipe.Runner.Driver.JobArrays.{or_text, or_group}
use cgpipe.Runner.Driver.Submit.{
  Stale, stale_member, submit_each, send_by, send_array, record_member, send_stale,
  submit_array_group, submit_array_member, submit_new, submit, no_stale, ids_by, set_base,
}
use cgpipe.Runner.Driver.Submit.Steps.{
  IsOnce, Steps, IsStep, Steps-trans, same_runs, IsStep-pure, IsStep-fail, IsStep-gets, IsStep-lift,
  IsStep-modify, IsStep-bind, IsStep-for_each, IsStep-if, Pending, Pending-step,
}
use cgpipe.Runner.Driver.Submit.Pending.{ran_all, nothing-Pending}
use cgpipe.Runner.Driver.Submit.Members.{run-Pending, IsStep-hook, single-Steps, stale-Steps}

module _ (env : Env) where
  module _ (arrays : Arrays) where
    each-Steps :
        (d : Driver) (deps : List Str) (ms : List Ref) (ids : List (Ref × Str))
        → Triple
            (Pending d ms)
            (for_each (submit_each env arrays deps) ms ids)
            (λ _. Pending d [])
            (λ _. Steps d)
    unfolding submit_each
    each-Steps d deps ms ids =
        triple_for_each (λ rest _. Pending d rest) (submit_each env arrays deps)
          (λ m rest acc. triple_bind (run-Pending env arrays d m rest deps) λ id. triple_pure _) ms
          ids

    sent-Steps :
        (d : Driver) (by : Option SubmitArray) (gpos : Pos) (g : ArrayGroup) (stale : Stale)
        (deps aftercorr : List Str)
        → Triple
            (Pending d stale.members)
            (send_by env arrays by gpos g stale deps aftercorr)
            (λ _. Steps d)
            (λ _. Steps d)
    unfolding send_by
    sent-Steps d none gpos g stale deps aftercorr =
        triple_if (aftercorr == [])
          (λ _. triple_post (λ ids s h. h.steps) (λ e s h. h) (each-Steps d deps stale.members []))
          (λ _. triple_pre (λ s h. h.steps) (triple_fail (not_array_capable g.name)))
    sent-Steps d (some submit_all) gpos g stale deps aftercorr =
        triple_bind (Pending-step d stale.members (IsStep-gets (λ s. s))) λ now.
          triple_bind (Pending-step d stale.members (IsStep-lift _)) λ got.
            triple_bind
              (triple_modify (Steps d)
                (λ s. record s {
                  array_base = set_base env arrays gpos got.1 s.array_base;
                  trace =
                      array_submitted stale.members stale.indices deps aftercorr got.1 ∷ s.trace;
                })
                (λ s h.
                  ran_all d stale.members stale.indices deps aftercorr got.1
                    (set_base env arrays gpos got.1 s.array_base) s h))
              λ _. triple_pure (ids_by env arrays got.0 stale.members)

    record_steps :
        (ids : List (Ref × Str)) (ms : List Ref)
        → IsStep (for_each (record_member env arrays ids) ms tt)
    unfolding record_member
    record_steps ids ms =
        IsStep-for_each (record_member env arrays ids)
          (λ _ m.
            IsStep-bind
              (IsStep-modify (λ s. record s { job_id = insert m (or_text (lookup m ids)) s.job_id })
                (λ s. refl) (λ s. refl))
              λ _. IsStep-hook env arrays m (or_text (lookup m ids)))
          ms tt

    Steps-then {ℓ} :
        {A : Type ℓ} {m : Exec Driver Error A} (d : Driver)
        → IsStep m
        → Triple (Steps d) m (λ _. Steps d) (λ _. Steps d)
    Steps-then d hm = triple_from λ now g.
        triple_post (λ a s k. Steps-trans d now s g k) (λ e s k. Steps-trans d now s g k)
          (hm now g.once)

    send_stale-Steps :
        (d : Driver) (gpos : Pos) (g : ArrayGroup) (stale : Stale)
        → Triple
            (Pending d stale.members)
            (send_stale env arrays gpos g stale)
            (λ _. Steps d)
            (λ _. Steps d)
    unfolding send_stale send_array
    send_stale-Steps d gpos g stale =
        triple_bind (Pending-step d stale.members (IsStep-gets (λ s. s))) λ now.
          triple_bind (Pending-step d stale.members (IsStep-lift _)) λ directives.
            triple_bind
              (sent-Steps d env.backend.submit_array gpos g stale directives.0 directives.1)
              λ ids. Steps-then d (record_steps ids stale.members)

    module _ (depth : ℕ) (self : Ref → M Str) (ih : (t : Ref) → IsStep (self t)) where
      members-Steps :
          (d : Driver) (gpos : Pos) (g : ArrayGroup)
          → IsOnce d
          → Triple
              (λ s. s ≡ d)
              (for_each (stale_member env arrays depth self g) g.members (no_stale env arrays)
                >>= λ stale.
                    if stale.members == [] then pure tt else send_stale env arrays gpos g stale)
              (λ _. Steps d)
              (λ _. Steps d)
      members-Steps d gpos g h =
          triple_bind
            (triple_pre (λ s e. rw e (nothing-Pending d h))
              (triple_for_each (λ _ acc s. Pending d acc.members s)
                (stale_member env arrays depth self g)
                (λ m rest acc. stale-Steps env arrays depth self ih d g m acc) g.members
                (no_stale env arrays)))
            λ stale.
              triple_if (stale.members == []) (λ _. triple_pre (λ s k. k.steps) (triple_pure tt))
                (λ _. send_stale-Steps d gpos g stale)

      group_steps : (gpos : Pos) → IsStep (submit_array_group env arrays depth self gpos)
      unfolding submit_array_group
      group_steps gpos = IsStep-bind (IsStep-gets (λ s. s)) λ s.
          IsStep-if (flag gpos s.array_done) (IsStep-pure tt) (
            IsStep-bind
              (IsStep-modify (λ s. record s { array_done = insert gpos true s.array_done })
                (λ s. refl) (λ s. refl))
              λ _ d h. members-Steps d gpos (or_group (lookup gpos arrays.groups)) h)

      new-Steps :
          (t : Ref) (g : Option Pos) (d : Driver)
          → IsOnce d
          → flag t d.done ≡ false
          → Triple (λ s. s ≡ d) (submit_new env arrays depth self t g) (λ _. Steps d) (λ _. Steps d)
      unfolding submit_new submit_array_member
      new-Steps t none d h off = single-Steps env arrays depth self ih t d h off
      new-Steps t (some g) d h off =
          IsStep-bind (group_steps g)
            (λ _. IsStep-bind (IsStep-gets (λ s. s)) λ s. IsStep-pure (or_text (lookup t s.job_id)))
            d h

    -- From a state in which every target that was run is marked and none was run twice, `submit`
    -- ends in such a state, with an error or without, keeps the marks, and runs no target again
    -- that was marked.
    pub submit-steps : (depth fuel : ℕ) (t : Ref) → IsStep (submit env arrays depth fuel t)
    unfolding submit
    submit-steps depth zero t d h = IsStep-fail out_of_fuel d h
    submit-steps depth (suc fuel) t d h =
        triple_bind {M = λ now s. (now ≡ d) × (s ≡ d)} (triple_gets (λ s. s) (λ s e. (e, e))) λ now.
          triple_if (flag t now.done)
            (λ _. triple_pre (λ s e. rw e.1 (same_runs d d h refl refl)) (triple_pure _))
            (λ off.
              triple_given {F = now ≡ d} (λ s e. e.0)
                λ at_d.
                  triple_pre (λ s e. e.1)
                    (new-Steps depth (submit env arrays depth fuel) (submit-steps depth fuel) t
                      (lookup t arrays.array_of) d h
                      (ap (λ (x : Driver). flag t x.done) (sym at_d) ∙ off)))
