-- ===== src/Runner/Driver/Choose.antt =====
-- driver.go: satisfiable, inputSatisfiable and producerFor. The recursion through the inputs takes
-- fuel, `depth`.
pub mod Sound
pub mod Decides
pub mod Producer
use mathlib.Core.List.{head?}
use cgpipe.Prelude.{
  ℕ, zero, suc, List, [], ◌∷◌, Bool, true, false, Option, none, some, list_eq, nat_eq,
  if◌then◌else◌,
}
use cgpipe.Prelude.Assoc.{lookup, insert, remove, flag}
use cgpipe.Exec.{Exec, pure, fail, gets, modify, ◌>>=◌, ◌>>◌, all_of, any_of, first_of}
use cgpipe.Text.{Str}
use cgpipe.Runner.Driver.{
  Ref, ref_eq, Error, out_of_fuel, Env, Driver, M, target_of, candidates_for, stat_exists,
  external_dep, is_some,
}

-- The two early returns: the memo, and the guard against a cycle.
abbrev pub unless_known : Option Bool → Bool → M Bool → M Bool
unless_known (some v) active rest = pure v
unless_known none true rest = pure false
unless_known none false rest = rest

-- The first rule whose inputs can be had, or else the first rule.
abbrev pub or_first : Option Ref → List Ref → Option Ref
or_first (some c) cands = some c
or_first none cands = head? cands

abbrev pub unless_chosen : Option (Option Ref) → M (Option Ref) → M (Option Ref)
unless_chosen (some c) rest = pure c
unless_chosen none rest = rest

module _ (env : Env) where
  -- `self` is `satisfiable` for the rules that make the input.
  unfoldable pub input_satisfiable : (Ref → M Bool) → Str → M Bool
  unfolding stat_exists candidates_for external_dep any_of
  input_satisfiable self input = if stat_exists env input then pure true else do
    found ← any_of self (candidates_for env input)
    pure (if found then true else is_some (external_dep env input))

  -- What follows the two early returns of `satisfiable`.
  unfoldable pub examine : (Ref → M Bool) → Ref → M Bool
  unfolding input_satisfiable target_of all_of insert remove
  examine self t = do
    modify (λ s. record s { sat_active = insert t true s.sat_active })
    ok_all ← all_of (input_satisfiable self) (target_of env t).inputs
    modify (λ s. record s { sat_active = remove t s.sat_active; sat = insert t ok_all s.sat })
    pure ok_all

  unfoldable pub satisfiable : ℕ → Ref → M Bool
  unfolding examine lookup
  satisfiable zero t = fail out_of_fuel
  satisfiable (suc depth) t = do
    s ← gets (λ s. s)
    unless_known (lookup t s.sat) (flag t s.sat_active) (examine (satisfiable depth) t)

  unfoldable pub choose : ℕ → Str → M (Option Ref)
  unfolding satisfiable first_of candidates_for insert
  choose depth path = do
    found ← first_of (satisfiable depth) (candidates_for env path)
    let picked = or_first found (candidates_for env path)
    modify (λ s. record s { chosen = insert path picked s.chosen })
    pure picked

  unfoldable pub producer_for : ℕ → Str → M (Option Ref)
  unfolding choose lookup
  producer_for depth path = do
    s ← gets (λ s. s)
    unless_chosen (lookup path s.chosen) (choose depth path)
