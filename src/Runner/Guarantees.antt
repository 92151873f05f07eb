-- ===== src/Runner/Guarantees.antt =====
-- What driver.go promises of its choice of rules, of its decision to run, and of its submissions,
-- each for a call from a given state of the driver.
use cgpipe.Prelude.{ℕ, subst, ◌≤◌, ◌<◌, [], Bool, true, false, Option, list_eq, nat_eq, ◌≡◌, refl}
use cgpipe.Exec.{Result, ok, err}
use cgpipe.Exec.Triple.{Post, pick}
use cgpipe.Text.{Str}
use cgpipe.Runner.Driver.{Ref, Error, Env, Driver, Arrays, Resolved, candidates_for}
use cgpipe.Runner.Driver.Choose.{satisfiable, producer_for}
use cgpipe.Runner.Driver.Choose.Sound.{CanMake, IsSound, satisfiable-IsSound}
use cgpipe.Runner.Driver.Choose.Decides.{IsRanked, Good, Truth, Above-nil, satisfiable-decides}
use cgpipe.Runner.Driver.Choose.Producer.{IsChoice, IsChosen, work_of, Fits, producer_for-Picks}
use cgpipe.Runner.Driver.Resolve.{resolve}
use cgpipe.Runner.Driver.Resolve.Meaning.{Resolves, IsUpToDate, Resolves-IsUpToDate}
use cgpipe.Runner.Driver.Resolve.Correct.{IsReady, Misses, resolve_correct}
use cgpipe.Runner.Driver.Submit.{submit}
use cgpipe.Runner.Driver.Submit.Steps.{IsOnce, Steps}
use cgpipe.Runner.Driver.Submit.Once.{submit-steps}

-- A method that cannot fail returns.
returned :
    {A : Type 0} {Q : A → Driver → Type 0} (r : Result Error A × Driver)
    → Post Q (λ _ _. ⊥) r
    → (a : A) × (s : Driver) × (r ≡ (ok a, s)) × Q a s
returned (ok a, s) h = (a, s, refl, h)
returned (err e, s) h = absurd h

said_true :
    (env : Env) (t : Ref) (s : Driver) (r : Result Error Bool × Driver)
    → r ≡ (ok true, s)
    → Post (λ b s. pick b (IsSound env s × CanMake env t) (IsSound env s)) (λ _ s. IsSound env s) r
    → CanMake env t
said_true env t s (ok true, s') e h = h.1
said_true env t s (ok false, s') e h = cc e
said_true env t s (err x, s') e h = cc e

-- From a memo that calls satisfiable only what can be made, whatever the depth, the rules and the
-- goals under way, `satisfiable` answers true only of a rule that can be made: each of its inputs is
-- on disk, made by a rule that can be made, or made by a job of the ledger.
pub satisfiable_sound :
    (env : Env) (depth : ℕ) (t : Ref) (d s : Driver)
    → IsSound env d
    → satisfiable env depth t d ≡ (ok true, s)
    → CanMake env t
satisfiable_sound env depth t d s h e =
    said_true env t s (satisfiable env depth t d) e ((satisfiable-IsSound env depth t).at d h)

-- Where a rank falls from each rule to those that make its inputs, the depth is above the rank of
-- the rule, the memo is right and no rule is under way, `satisfiable` returns an answer, which is
-- true exactly of a rule that can be made, and leaves the memo right and no rule under way.
pub satisfiable_exact :
    (env : Env) (rank : Ref → ℕ) (ranked : IsRanked env rank) (depth : ℕ) (t : Ref) (d : Driver)
    → rank t < depth
    → Good env [] d
    → (b : Bool) × (s : Driver) × (satisfiable env depth t d ≡ (ok b, s))
      × (Good env [] s × Truth env t b)
satisfiable_exact env rank ranked depth t d fits h = returned (satisfiable env depth t d) (
    (satisfiable-decides env rank ranked depth t [] fits (Above-nil env rank ranked (rank t))).at d
      h)

-- Where a rank falls from each rule to those that make its inputs, the depth is above the rank of
-- every rule for the path and the memos are right, `producerFor` returns; it picks the first rule
-- that can be made, or the first rule of all where none can, leaves the memos right and changes
-- nothing else of the driver.
pub producer_for_exact :
    (env : Env) (rank : Ref → ℕ) (ranked : IsRanked env rank) (depth : ℕ) (p : Str) (d : Driver)
    → Fits env rank ranked depth p
    → IsChosen env d
    → (r : Option Ref) × (s : Driver) × (producer_for env depth p d ≡ (ok r, s))
      × (IsChosen env s × (work_of env s ≡ work_of env d) × IsChoice env (candidates_for env p) r)
producer_for_exact env rank ranked depth p d fits h =
    returned (producer_for env depth p d)
      ((producer_for-Picks env rank ranked depth p d fits).at d (refl, h))

-- Where a rank falls from each rule to those that make its inputs, the depth and the fuel are
-- enough for the rank of the target, the memos are right and no target is under way, `resolve`
-- returns the answer that the rules derive, leaves the memos right, no target under way and the
-- jobs alone, or fails for an input that is not on disk, has no rule and no job that makes it;
-- it never reports a cycle and never runs out of fuel.
pub resolve_exact :
    (env : Env) (rank : Ref → ℕ) (ranked : IsRanked env rank) (depth fuel : ℕ) (t : Ref)
    (d : Driver)
    → fuel ≤ depth
    → rank t < fuel
    → IsReady env [] d d
    → Post (λ r s. IsReady env [] d s × Resolves env t r) (Misses env) (resolve env depth fuel t d)
resolve_exact env rank ranked depth fuel t d le fits h =
    (resolve_correct env rank ranked depth d fuel le t [] fits
        (Above-nil env rank ranked (rank t))).at
      d h

-- Where a rank falls from each rule to those that make its inputs, the depth and the fuel are
-- enough for the rank of the target, the memos are right and no target is under way, a target for
-- which `resolve` answers that it need not run is up to date: the build is not forced, every output
-- that is not temporary is there, no input is to be rebuilt, and no output that is there is older
-- than any input that is a file without a rule, nor than the time that stands for an input with a
-- rule. No output on disk of the target that makes the input is older than that time, and none of
-- the target's own is older than the time that it hands to its dependents in turn.
pub resolve-IsUpToDate :
    (env : Env) (rank : Ref → ℕ) (ranked : IsRanked env rank) (depth fuel : ℕ) (t : Ref)
    (d s : Driver) (r : Resolved)
    → fuel ≤ depth
    → rank t < fuel
    → IsReady env [] d d
    → resolve env depth fuel t d ≡ (ok r, s)
    → r.will_run ≡ false
    → IsUpToDate env t r.eff
resolve-IsUpToDate env rank ranked depth fuel t d s r le fits h e idle =
    let derived =
      subst (Post (λ r s. IsReady env [] d s × Resolves env t r) (Misses env)) e
        (resolve_exact env rank ranked depth fuel t d le fits h) in
    Resolves-IsUpToDate env derived.1 idle

-- From a state in which every target that was run is marked and none was run twice, `submit` ends
-- in such a state, with an error or without, keeps the marks, and runs no target again that was
-- marked, whatever the fuel and the backend's answers.
pub submit_once :
    (env : Env) (arrays : Arrays) (depth fuel : ℕ) (t : Ref) (d : Driver)
    → IsOnce d
    → Post (λ _. Steps d) (λ _. Steps d) (submit env arrays depth fuel t d)
submit_once env arrays depth fuel t d h = (submit-steps env arrays depth fuel t d h).at d refl
