-- ===== src/Runner/Tests.antt =====
-- The theorems on the driver at a program of two rules: `b` is made from `a`, and `a` from nothing.
use mathlib.Core.List.{Memᴰ}
use mathlib.Core.List.Memᴰ
use cgpipe.Prelude.{
  ℕ, zero, suc, List, [], ◌∷◌, Bool, true, false, Option, none, some, list_eq, nat_eq, ◌≡◌, refl,
  subst, arith, if◌then◌else◌, ◌==◌,
}
use cgpipe.Prelude.Assoc.{lookup}
use cgpipe.Exec.{ok, for_each}
use cgpipe.Exec.Triple.{Post}
use cgpipe.Text.{Str, codes}
use cgpipe.Runner.Target.{Target, Program, no_pos}
use cgpipe.Runner.Wildcard.{instantiate}
use cgpipe.Runner.Driver.{
  Ref, rule, inst, setup, teardown, Env, Backend, Driver, Arrays, new_driver, target_of,
  candidates_for,
}
use cgpipe.Runner.Driver.Choose.{satisfiable, producer_for}
use cgpipe.Runner.Driver.Choose.Sound.{CanMake, IsSound}
use cgpipe.Runner.Driver.Choose.Decides.{IsRanked, Good, Truth}
use cgpipe.Runner.Driver.Choose.Producer.{IsChoice, IsChosen, work_of, Fits}
use cgpipe.Runner.Driver.Resolve.{resolve, finish}
use cgpipe.Runner.Driver.Resolve.Meaning.{Resolves, IsUpToDate}
use cgpipe.Runner.Driver.Resolve.Correct.{IsReady, Misses}
use cgpipe.Runner.Driver.Submit.{submit}
use cgpipe.Runner.Driver.Submit.Steps.{IsOnce, Steps, IsSimple, runs_of}
use cgpipe.Runner.Driver.Build.{build_goal}
use cgpipe.Runner.Driver.Build.Once.{goals-IsSimple}
use cgpipe.Runner.Guarantees.{
  satisfiable_sound, satisfiable_exact, producer_for_exact, resolve_exact, resolve-IsUpToDate,
  submit_once,
}

abbrev target_from : List Str → List Str → Target
target_from outputs inputs = record {
  pos = no_pos;
  special = [];
  outputs = outputs;
  temp = [];
  inputs = inputs;
  body = codes "x";
  has_body = true;
  stem = [];
}

abbrev two_rules : Program
two_rules = record {
  targets = target_from (codes "b" ∷ []) (codes "a" ∷ []) ∷ target_from (codes "a" ∷ []) [] ∷ [];
  default_goals = [];
  first_output = codes "b";
  setup = none;
  teardown = none;
  postsubmit = none;
}

abbrev quiet_backend : Backend
quiet_backend = record {
  submit = λ trace t deps. ok (codes "1");
  submit_array = none;
  external_dep = λ p. none;
  post_submit = λ trace t id. none;
}

abbrev mtime_of : Str → Option ℕ
mtime_of p = if p == codes "a" then some 5 else if p == codes "b" then some 7 else none

abbrev sample : Env
sample = record {
  prog = two_rules;
  goals = [];
  dir = [];
  force = false;
  stat = mtime_of;
  backend = quiet_backend;
  array_index = λ t. ok none;
}

abbrev no_arrays : Arrays
no_arrays = record { groups = []; array_of = [] }

abbrev rank : Ref → ℕ
rank (rule zero) = 2
rank (rule (suc i)) = 1
rank _ = 3

makers_of_a : candidates_for sample (codes "a") ≡ rule 1 ∷ []
unfolding candidates_for
makers_of_a = refl

ranked : IsRanked sample rank
unfolding target_of candidates_for instantiate
ranked (rule zero) p c m mc =
    let e = Memᴰ.eq_of_singleton m in
    let made_by = subst (λ q. Memᴰ c (candidates_for sample q)) e mc in
    let same : c ≡ rule 1 = Memᴰ.eq_of_singleton made_by in rw same (omega arith)
ranked (rule (suc zero)) p c m mc = absurd (Memᴰ.not-nil m)
ranked (rule (suc (suc i))) p c m mc = absurd (Memᴰ.not-nil m)
ranked (inst zero stem) p c m mc =
    let e = Memᴰ.eq_of_singleton m in
    let made_by = subst (λ q. Memᴰ c (candidates_for sample q)) e mc in
    let same : c ≡ rule 1 = Memᴰ.eq_of_singleton made_by in rw same (omega arith)
ranked (inst (suc zero) stem) p c m mc = absurd (Memᴰ.not-nil m)
ranked (inst (suc (suc i)) stem) p c m mc = absurd (Memᴰ.not-nil m)
ranked setup p c m mc = absurd (Memᴰ.not-nil m)
ranked teardown p c m mc = absurd (Memᴰ.not-nil m)

IsSound-new : IsSound sample new_driver
unfolding lookup
IsSound-new = record { true_entries = λ t e. cc e }

Good-new : Good sample [] new_driver
unfolding lookup
Good-new = record {
  exact = record { true_entries = λ t e. cc e; false_entries = λ t e. cc e };
  same = λ u. refl;
}

IsChosen-new : IsChosen sample new_driver
unfolding lookup
IsChosen-new = record { good = Good-new; choices = λ p r e. cc e }

IsReady-new : IsReady sample [] new_driver new_driver
unfolding lookup
IsReady-new = record { chosen = IsChosen-new; memo = λ t r e. cc e; marks = λ u. refl; jobs = refl }

IsOnce-new : IsOnce new_driver
unfolding runs_of
IsOnce-new = record { simple = tt; marked = λ r m. absurd (Memᴰ.not-nil m) }

Fits-a : Fits sample rank ranked 3 (codes "a")
unfolding candidates_for
Fits-a c m =
    let same : c ≡ rule 1 = Memᴰ.eq_of_singleton (subst (λ cs. Memᴰ c cs) makers_of_a m) in
    rw same (omega arith)

abbrev answered : Driver
answered = (satisfiable sample 3 (rule 1) new_driver).1

satisfiable_sound_example : CanMake sample (rule 1)
unfolding satisfiable
satisfiable_sound_example = satisfiable_sound sample 3 (rule 1) new_driver answered IsSound-new refl

satisfiable_exact_example :
    (b : Bool) × (s : Driver) × (satisfiable sample 3 (rule 0) new_driver ≡ (ok b, s))
    × (Good sample [] s × Truth sample (rule 0) b)
satisfiable_exact_example =
    satisfiable_exact sample rank ranked 3 (rule 0) new_driver (omega arith) Good-new

producer_for_exact_example :
    (r : Option Ref) × (s : Driver) × (producer_for sample 3 (codes "a") new_driver ≡ (ok r, s))
    × (IsChosen sample s
        × (work_of sample s ≡ work_of sample new_driver)
        × IsChoice sample (candidates_for sample (codes "a")) r)
producer_for_exact_example =
    producer_for_exact sample rank ranked 3 (codes "a") new_driver Fits-a IsChosen-new

resolve_exact_example :
    Post
      (λ r s. IsReady sample [] new_driver s × Resolves sample (rule 0) r)
      (Misses sample)
      (resolve sample 3 3 (rule 0) new_driver)
resolve_exact_example =
    resolve_exact sample rank ranked 3 3 (rule 0) new_driver (omega arith) (omega arith) IsReady-new

abbrev resolved_a : Driver
resolved_a = (resolve sample 3 3 (rule 1) new_driver).1

resolve-IsUpToDate_example : IsUpToDate sample (rule 1) 5
unfolding resolve finish target_of lookup
resolve-IsUpToDate_example =
    resolve-IsUpToDate sample rank ranked 3 3 (rule 1) new_driver resolved_a
      (record { will_run = false; eff = 5 }) (omega arith) (omega arith) IsReady-new refl refl

submit_once_example :
    Post
      (λ _. Steps new_driver)
      (λ _. Steps new_driver)
      (submit sample no_arrays 3 3 (rule 0) new_driver)
submit_once_example = submit_once sample no_arrays 3 3 (rule 0) new_driver IsOnce-new

abbrev wanted : List Str
wanted = codes "b" ∷ codes "a" ∷ codes "b" ∷ []

goals-IsSimple_example :
    IsSimple (runs_of (for_each (build_goal sample no_arrays 5) wanted tt new_driver).1.trace)
goals-IsSimple_example = goals-IsSimple sample no_arrays 5 wanted
