-- ===== src/Runner/Driver/Build/Once.antt =====
-- driver.go: how often the goals of a build together hand a target to the backend.
use cgpipe.Prelude.{ℕ, List, Option, none, some, list_eq, nat_eq, refl}
use cgpipe.Exec.{Result, ok, err, for_each}
use mathlib.Core.List.Memᴰ
use cgpipe.Exec.Triple.{Post}
use cgpipe.Text.{Str}
use cgpipe.Runner.Driver.{Ref, Error, no_rule_goal, Env, Driver, Arrays, new_driver, stat_exists}
use cgpipe.Runner.Driver.Resolve.Keeps.{producer_for-jobs, resolve-jobs}
use cgpipe.Runner.Driver.Submit.Steps.{
  runs_of, IsSimple, IsOnce, Steps, IsStep, IsStep-pure, IsStep-fail, IsStep-bind, IsStep-for_each,
  IsStep-if,
}
use cgpipe.Runner.Driver.Submit.Members.{IsStep-jobs}
use cgpipe.Runner.Driver.Submit.Once.{submit-steps}
use cgpipe.Runner.Driver.Build.{goal_made, build_goal}

module _ (env : Env) (arrays : Arrays) (fuel : ℕ) where
  IsStep-goal_made : (goal : Str) (r : Option Ref) → IsStep (goal_made env arrays fuel goal r)
  unfolding goal_made
  IsStep-goal_made goal none =
      IsStep-if (stat_exists env goal) (IsStep-pure tt) (IsStep-fail (no_rule_goal goal))
  IsStep-goal_made goal (some t) =
      IsStep-bind (IsStep-jobs env (λ d. resolve-jobs env d fuel fuel t)) λ res.
        IsStep-if res.will_run
          (IsStep-bind (submit-steps env arrays fuel fuel t) λ id. IsStep-pure tt) (IsStep-pure tt)

  IsStep-goal : (goal : Str) → IsStep (build_goal env arrays fuel tt goal)
  unfolding build_goal
  IsStep-goal goal =
      IsStep-bind (IsStep-jobs env (λ d. producer_for-jobs env d fuel goal))
        λ r. IsStep-goal_made goal r

  pub IsStep-goals : (goals : List Str) → IsStep (for_each (build_goal env arrays fuel) goals tt)
  IsStep-goals goals =
      IsStep-for_each (build_goal env arrays fuel) (λ _ goal. IsStep-goal goal) goals tt

  last_state :
      {A : Type 0} (d : Driver) (r : Result Error A × Driver)
      → Post (λ _. Steps d) (λ _. Steps d) r
      → Steps d r.1
  last_state d (ok a, s) h = h
  last_state d (err e, s) h = h

  IsOnce-new : IsOnce new_driver
  unfolding runs_of
  IsOnce-new = record { simple = tt; marked = λ r m. absurd (Memᴰ.not-nil m) }

  -- Whatever the rules, the goals, the fuel and the answers of the backend are, and whether the
  -- goals end in an error or not, no target was handed to the backend twice.
  pub goals-IsSimple :
      (goals : List Str)
      → IsSimple (runs_of (for_each (build_goal env arrays fuel) goals tt new_driver).1.trace)
  goals-IsSimple goals =
      (last_state new_driver (for_each (build_goal env arrays fuel) goals tt new_driver)
        ((IsStep-goals goals new_driver IsOnce-new).at new_driver refl)).once.simple
