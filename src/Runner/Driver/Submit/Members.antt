-- ===== src/Runner/Driver/Submit/Members.antt =====
-- The parts of `submit`: the hook, the dependencies, a single target and a member of an array.
use cgpipe.Prelude.{
  ℕ, List, [], ◌∷◌, ◌++◌, Bool, true, false, not, ◌&&◌, ◌||◌, Option, none, some, list_eq, nat_eq,
  if◌then◌else◌, ◌≡◌, refl, ◌∙◌, ap,
}
use cgpipe.Prelude.Assoc.{insert, flag}
use cgpipe.Exec.{pure}
use cgpipe.Exec.Triple.{
  Triple, triple_pure, triple_gets, triple_pre, triple_post, triple_bind, triple_modify, triple_if,
}
use cgpipe.Text.{Str}
use cgpipe.Runner.Target.{pos_eq, with_body}
use cgpipe.Runner.Driver.{
  Ref, ref_eq, Error, Env, Driver, M, hook, ArrayGroup, Arrays, target_of, stat_exists,
}
use cgpipe.Runner.Driver.Resolve.Correct.{jobs_of}
use cgpipe.Runner.Driver.Resolve.Keeps.{KeepsJobs, producer_for-jobs, resolve-jobs}
use cgpipe.Runner.Driver.JobArrays.{DepEdge, index_in}
use cgpipe.Runner.Driver.Submit.{
  add_edge, Stale, call_submit, run_hook, do_submit, edge_made, collect_edge, collect_dep_edges,
  collect_deps, stale_member, submit_single, outputs_present,
}
use cgpipe.Runner.Driver.Submit.Steps.{
  runs_of, IsOnce, Steps, IsStep, Steps-trans, same_runs, IsStep-pure, IsStep-gets, IsStep-lift,
  IsStep-modify, IsStep-bind, IsStep-for_each, IsStep-if, Pending, Pending-step, mark-Pending,
}
use cgpipe.Runner.Driver.Submit.Pending.{ran_one, Pending-last, Pending-tail, nothing-Pending}

module _ (env : Env) where
  pub IsStep-jobs : {A : Type 0} {m : M A} → ((d : Driver) → KeepsJobs env d m) → IsStep m
  IsStep-jobs keeps d h =
      triple_pre (λ s e. ap (jobs_of env) e)
        (triple_post
          (λ a s e.
            same_runs d s h (ap (λ (x : Driver). x.done) e)
              (ap (λ (x : Driver). runs_of x.trace) e))
          (λ a s e.
            same_runs d s h (ap (λ (x : Driver). x.done) e)
              (ap (λ (x : Driver). runs_of x.trace) e))
          (keeps d))

  module _ (arrays : Arrays) where
    pub run-Pending :
        (d : Driver) (t : Ref) (ms : List Ref) (deps : List Str)
        → Triple
            (Pending d (t ∷ ms))
            (call_submit env arrays t deps)
            (λ _. Pending d ms)
            (λ _. Steps d)
    unfolding call_submit
    run-Pending d t ms deps = triple_bind (Pending-step d (t ∷ ms) (IsStep-gets (λ s. s))) λ now.
        triple_bind (Pending-step d (t ∷ ms) (IsStep-lift _)) λ id.
          triple_bind (triple_modify (Pending d ms) _ (λ s h. ran_one d t ms deps id s h))
            λ _. triple_pure id

    pub IsStep-hook : (t : Ref) (id : Str) → IsStep (run_hook env arrays t id)
    unfolding run_hook runs_of
    IsStep-hook t id =
        IsStep-if (with_body env.prog.postsubmit)
          (IsStep-bind (IsStep-gets (λ s. s)) λ s. IsStep-bind (IsStep-lift _) λ _.
            IsStep-modify (λ s. record s { trace = hook t id ∷ s.trace }) (λ s. refl) (λ s. refl))
          (IsStep-pure tt)

    module _ (depth : ℕ) (self : Ref → M Str) (ih : (t : Ref) → IsStep (self t)) where
      pub IsStep-edge_made :
          (edges : List DepEdge) (p : Str) (r : Option Ref)
          → IsStep (edge_made env arrays depth self edges p r)
      unfolding edge_made
      IsStep-edge_made edges p none = IsStep-pure _
      IsStep-edge_made edges p (some c) =
          IsStep-bind (IsStep-jobs (λ d. resolve-jobs env d depth depth c)) λ sub.
            IsStep-if (sub.will_run || not (stat_exists env p))
              (IsStep-bind (ih c) λ id. IsStep-pure (add_edge edges id (some c)))
              (IsStep-pure edges)

      pub IsStep-edges : (t : Ref) → IsStep (collect_dep_edges env arrays depth self t)
      unfolding collect_dep_edges collect_edge
      IsStep-edges t =
          IsStep-for_each (collect_edge env arrays depth self)
            (λ edges p.
              IsStep-bind (IsStep-jobs (λ d. producer_for-jobs env d depth p))
                λ r. IsStep-edge_made edges p r)
            (target_of env t).inputs []

      pub IsStep-deps : (t : Ref) → IsStep (collect_deps env arrays depth self t)
      unfolding collect_deps
      IsStep-deps t =
          IsStep-bind (IsStep-edges t)
            λ edges. IsStep-bind (IsStep-gets (λ s. s)) λ s. IsStep-pure _

      -- A target that is not marked yet, outside the arrays.
      pub single-Steps :
          (t : Ref) (d : Driver)
          → IsOnce d
          → flag t d.done ≡ false
          → Triple
              (λ s. s ≡ d)
              (submit_single env arrays depth self t)
              (λ _. Steps d)
              (λ _. Steps d)
      unfolding submit_single do_submit
      single-Steps t d h off =
          triple_bind
            (triple_modify (Pending d (t ∷ [])) _
              (λ s e. rw e (mark-Pending d [] t d (nothing-Pending d h) off)))
            λ _. triple_bind (Pending-step d (t ∷ []) (IsStep-deps t)) λ deps.
              triple_if (target_of env t).has_body
                (λ _.
                  triple_bind
                    (triple_bind (run-Pending d t [] deps)
                      λ id. triple_bind (Pending-step d [] (IsStep-hook t id)) λ _. triple_pure id)
                    λ id.
                      triple_bind
                        (triple_modify (Steps d) (λ s. record s { job_id = insert t id s.job_id })
                          (λ s k. Steps-trans d s _ k.steps (same_runs s _ k.steps.once refl refl)))
                        λ _. triple_pure id)
                (λ _. triple_pre (λ s k. k.steps) (triple_pure []))

      pub keep_or_drop :
          (d : Driver) (g : ArrayGroup) (m : Ref) (acc : Stale) (edges : List DepEdge) (b : Bool)
          → Triple
              (Pending d (m ∷ acc.members))
              (pure {E = Error} (
                if b then acc else record {
                  members = acc.members ++ (m ∷ []);
                  indices = acc.indices ++ (index_in g m ∷ []);
                  edges = insert m edges acc.edges;
                }))
              (λ acc' s. Pending d acc'.members s)
              (λ _. Steps d)
      keep_or_drop d g m acc edges true =
          triple_pre (Pending-tail d m acc.members) (triple_pure acc)
      keep_or_drop d g m acc edges false = triple_pre (Pending-last d m acc.members) (triple_pure _)

      pub stale-Steps :
          (d : Driver) (g : ArrayGroup) (m : Ref) (acc : Stale)
          → Triple
              (Pending d acc.members)
              (stale_member env arrays depth self g acc m)
              (λ acc' s. Pending d acc'.members s)
              (λ _. Steps d)
      unfolding stale_member
      stale-Steps d g m acc =
          triple_bind {M = λ now s. (s ≡ now) × Pending d acc.members s}
            (triple_gets (λ s. s) (λ s h. (refl, h)))
            λ now.
              triple_if (flag m now.done) (λ _. triple_pre (λ s h. h.1) (triple_pure acc))
                (λ off.
                  triple_bind
                    (triple_modify (Pending d (m ∷ acc.members)) _ (λ s h.
                      mark-Pending d acc.members m s h.1
                        (ap (λ (x : Driver). flag m x.done) h.0 ∙ off)))
                    λ _. triple_bind (Pending-step d (m ∷ acc.members) (IsStep-edges m)) λ edges.
                      triple_bind
                        (Pending-step d (m ∷ acc.members)
                          (IsStep-jobs (λ e. resolve-jobs env e depth depth m)))
                        λ res. keep_or_drop d g m acc edges (
                          not (target_of env m).has_body
                          || not res.will_run
                            && outputs_present env arrays (target_of env m).outputs))
