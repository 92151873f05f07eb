-- ===== src/Runner/Driver/Resolve.antt =====
-- driver.go: resolve, the decision whether a target must run. Times are nanoseconds from 1970, so
-- a file from before counts as one from 1970.
pub mod Meaning
pub mod Correct
pub mod Keeps
use cgpipe.Prelude.{
  ℕ, zero, suc, ◌-◌, List, [], ◌∷◌, Bool, true, false, not, ◌&&◌, ◌||◌, Option, none, some, list_eq,
  nat_eq, if◌then◌else◌, ltb,
}
use cgpipe.Prelude.Assoc.{lookup, insert, remove, flag}
use cgpipe.Exec.{
  Result, ok, err, Exec, pure, fail, gets, modify, lift, finally, ◌>>=◌, ◌>>◌, for_each,
}
use cgpipe.Text.{Str}
use cgpipe.Runner.Target.{Target, is_temp}
use cgpipe.Runner.Driver.{
  Ref, ref_eq, Error, no_rule, cycle, out_of_fuel, Env, Driver, M, Resolved, target_of, stat_exists,
  stat_mtime, external_dep, is_some,
}
use cgpipe.Runner.Driver.Choose.{producer_for}

-- inNewest and anyInputRebuilt
pub record Scan : Type 0 where
  pub newest : ℕ
  pub rebuilt : Bool

abbrev pub no_inputs : Scan
no_inputs = record { newest = 0; rebuilt = false }

-- if m > newest { newest = m }
abbrev pub later : ℕ → ℕ → ℕ
later newest m = if ltb newest m then m else newest

-- An input with a rule.
unfoldable pub after_rule : Scan → Resolved → Scan
after_rule acc sub =
    if sub.will_run
    then record acc { rebuilt = true }
    else record acc { newest = later acc.newest sub.eff }

-- math.MaxInt64
abbrev pub max_int64 : ℕ
max_int64 = 9223372036854775807

module _ (env : Env) where
  -- An input without a rule.
  unfoldable pub after_file : List Str → Scan → Str → Result Error Scan
  unfolding stat_mtime external_dep
  after_file outs acc input = elim (stat_mtime env input) [
    | some m ↦ ok (record acc { newest = later acc.newest m })
    | none ↦
        if is_some (external_dep env input)
        then ok (record acc { rebuilt = true })
        else err (no_rule input outs)
  ]

  -- Some output is not ^temporary and not on disk.
  unfoldable pub lacks_output : Target → List Str → Bool
  unfolding stat_exists
  lacks_output t [] = false
  lacks_output t (o ∷ os) = not (is_temp t o) && not (stat_exists env o) || lacks_output t os

  abbrev pub older : Option ℕ → ℕ → Bool
  older none newest = false
  older (some m) newest = ltb m newest

  -- Some output is on disk and older than the newest input.
  unfoldable pub has_older_output : ℕ → List Str → Bool
  unfolding stat_mtime
  has_older_output newest [] = false
  has_older_output newest (o ∷ os) = older (stat_mtime env o) newest || has_older_output newest os

  abbrev pub sooner : Option ℕ → Option ℕ → Option ℕ
  sooner none best = best
  sooner (some m) none = some (if ltb m max_int64 then m else max_int64)
  sooner (some m) (some b) = some (if ltb m b then m else b)

  -- minOut, or `none` where `any` is false.
  unfoldable pub oldest_output : Option ℕ → List Str → Option ℕ
  unfolding stat_mtime
  oldest_output best [] = best
  oldest_output best (o ∷ os) = oldest_output (sooner (stat_mtime env o) best) os

  abbrev pub eff_or : Option ℕ → ℕ → ℕ
  eff_or none newest = newest
  eff_or (some m) newest = m

  unfoldable pub must_run : Target → Scan → Bool
  unfolding lacks_output has_older_output
  must_run t acc =
      acc.rebuilt || env.force || lacks_output t t.outputs || has_older_output acc.newest t.outputs

  -- What follows the loop over the inputs.
  unfoldable pub finish : Target → Scan → Resolved
  unfolding must_run oldest_output
  finish t acc =
      if must_run t acc
      then record { will_run = true; eff = 0 }
      else record { will_run = false; eff = eff_or (oldest_output none t.outputs) acc.newest }

  -- One input, once its rule is known. `self` is `resolve` for that rule.
  unfoldable pub scan_made : (Ref → M Resolved) → List Str → Scan → Str → Option Ref → M Scan
  unfolding after_file after_rule ◌>>=◌
  scan_made self outs acc input (some c) = do sub ← self c; pure (after_rule acc sub)
  scan_made self outs acc input none = lift (after_file outs acc input)

  unfoldable pub scan_input : ℕ → (Ref → M Resolved) → List Str → Scan → Str → M Scan
  unfolding scan_made producer_for ◌>>=◌
  scan_input depth self outs acc input = do
    made_by ← producer_for env depth input
    scan_made self outs acc input made_by

  -- What follows the two early returns, with the deferred removal of the mark.
  unfoldable pub decide : ℕ → (Ref → M Resolved) → Ref → M Resolved
  unfolding scan_input finish target_of insert remove for_each ◌>>=◌
  decide depth self t =
      finally (λ s. record s { resolving = remove t s.resolving })
        do
          modify (λ s. record s { resolving = insert t true s.resolving })
          acc ←
              for_each (scan_input depth self (target_of env t).outputs) (target_of env t).inputs
                no_inputs
          modify (λ s. record s { memo = insert t (finish (target_of env t) acc) s.memo })
          pure (finish (target_of env t) acc)

-- The two early returns: the memo, and the guard against a cycle.
abbrev pub unless_resolved : Option Resolved → Bool → List Str → M Resolved → M Resolved
unless_resolved (some r) busy outs rest = pure r
unless_resolved none true outs rest = fail (cycle outs)
unless_resolved none false outs rest = rest

-- `depth` is the fuel of `satisfiable`, `fuel` that of `resolve` itself.
unfoldable pub resolve : Env → ℕ → ℕ → Ref → M Resolved
unfolding decide lookup target_of ◌>>=◌
resolve env depth zero t = fail out_of_fuel
resolve env depth (suc fuel) t = do
  s ← gets (λ s. s)
  unless_resolved (lookup t s.memo) (flag t s.resolving) (target_of env t).outputs
      (decide env depth (resolve env depth fuel) t)
