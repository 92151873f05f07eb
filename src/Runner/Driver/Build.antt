-- ===== src/Runner/Driver/Build.antt =====
-- driver.go: Build, buildGoal and the opportunistic targets. `fuel` bounds every recursion.
pub mod Once
use cgpipe.Prelude.{
  ℕ, zero, suc, List, [], ◌∷◌, ◌++◌, Bool, true, false, not, ◌&&◌, ◌||◌, Option, none, some,
  list_eq, nat_eq, if◌then◌else◌, ◌==◌,
}
use cgpipe.Prelude.Assoc.{lookup, flag}
use cgpipe.Exec.{
  Result, ok, err, Exec, pure, fail, gets, modify, lift, ◌>>=◌, ◌>>◌, for_each, all_of,
}
use cgpipe.Text.{Str}
use cgpipe.Runner.Target.{Target, with_body}
use cgpipe.Runner.Driver.{
  Ref, setup, teardown, ref_eq, Error, no_goal, no_rule_goal, Env, Driver, M, Arrays, refs_from,
  target_of, stat_exists, external_dep, is_some, new_driver,
}
use cgpipe.Runner.Driver.Choose.{producer_for}
use cgpipe.Runner.Driver.Resolve.{resolve}
use cgpipe.Runner.Driver.JobArrays.{or_text, detect_arrays}
use cgpipe.Runner.Driver.Submit.{do_submit, submit}

-- The targets without outputs that have a body, in source order.
unfoldable pub opportunistic : List (Ref × Target) → List Ref
opportunistic [] = []
opportunistic ((r, t) ∷ ts) =
    if t.outputs == [] && t.has_body then r ∷ opportunistic ts else opportunistic ts

module _ (env : Env) where
  -- The goals of the options, or of @default, or else the first output.
  unfoldable pub goals : List Str
  goals =
      if env.goals == []
      then (if env.prog.default_goals == []
          then (if env.prog.first_output == [] then [] else env.prog.first_output ∷ [])
          else env.prog.default_goals)
      else env.goals

  module _ (arrays : Arrays) (fuel : ℕ) where
    unfoldable pub goal_made : Str → Option Ref → M (Unit {0})
    unfolding resolve submit stat_exists ◌>>=◌
    goal_made goal none = if stat_exists env goal then pure tt else fail (no_rule_goal goal)
    goal_made goal (some t) = do
      res ← resolve env fuel fuel t
      if res.will_run then (do id ← submit env arrays fuel fuel t; pure tt) else pure tt

    unfoldable pub build_goal : Unit {0} → Str → M (Unit {0})
    unfolding goal_made producer_for ◌>>=◌
    build_goal _ goal = do made_by ← producer_for env fuel goal; goal_made goal made_by

    is_done : Option Ref → Driver → Bool
    unfolding lookup
    is_done none s = false
    is_done (some t) s = flag t s.done

    -- On disk, made by a job of this run, or by an active job of the ledger.
    unfoldable pub available : Str → M Bool
    unfolding stat_exists producer_for is_done external_dep ◌>>=◌
    available input = if stat_exists env input then pure true else do
      made_by ← producer_for env fuel input
      s ← gets (λ s. s)
      pure (is_done made_by s || is_some (external_dep env input))

    abbrev add_id : List Str → Option Str → List Str
    add_id deps none = deps
    add_id deps (some id) = if id == [] then deps else deps ++ (id ∷ [])

    dep_of : List Str → Str → Option Ref → Driver → List Str
    unfolding lookup stat_exists external_dep
    dep_of deps input (some t) s = add_id deps (lookup t s.job_id)
    dep_of deps input none s =
        if stat_exists env input then deps else add_id deps (external_dep env input)

    unfoldable pub opportunistic_dep : List Str → Str → M (List Str)
    unfolding dep_of producer_for ◌>>=◌
    opportunistic_dep deps input = do
      made_by ← producer_for env fuel input
      s ← gets (λ s. s)
      pure (dep_of deps input made_by s)

    unfoldable pub run_opportunistic : Ref → M Str
    unfolding opportunistic_dep do_submit target_of for_each ◌>>=◌
    run_opportunistic t = do
      deps ← for_each opportunistic_dep (target_of env t).inputs []
      do_submit env arrays t deps

    unfoldable pub try_opportunistic : Unit {0} → Ref → M (Unit {0})
    unfolding available run_opportunistic target_of all_of ◌>>=◌
    try_opportunistic _ t = do
      ready ← all_of available (target_of env t).inputs
      if ready then (do id ← run_opportunistic t; pure tt) else pure tt

    -- @setup and @teardown
    unfoldable pub run_special : Ref → Option Target → M (Unit {0})
    unfolding do_submit with_body ◌>>=◌
    run_special t target =
        if with_body target then (do id ← do_submit env arrays t []; pure tt) else pure tt

    unfoldable pub build_with : M (Unit {0})
    unfolding goals run_special build_goal try_opportunistic opportunistic refs_from for_each ◌>>=◌
    build_with = if goals == [] then fail no_goal else do
      run_special setup env.prog.setup
      for_each build_goal goals tt
      for_each try_opportunistic (opportunistic (refs_from 0 env.prog.targets)) tt
      run_special teardown env.prog.teardown

  -- Build, from a new driver.
  unfoldable pub build : ℕ → Result Error (Unit {0}) × Driver
  unfolding detect_arrays build_with
  build fuel = elim (detect_arrays env) [
    | err e ↦ (err e, new_driver)
    | ok arrays ↦ build_with arrays fuel new_driver
  ]
