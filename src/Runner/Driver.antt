-- ===== src/Runner/Driver.antt =====
-- driver.go: the driver's state, what it calls, and the rules that can make a path. A target of the
-- program is known by its place in `Targets`, an instance of a `%` rule by the rule and the stem,
-- which is the key under which the code shares it.
pub mod Choose
pub mod Resolve
pub mod JobArrays
pub mod Submit
pub mod Build
use cgpipe.Prelude.{
  ℕ, zero, suc, ◌≡◌, refl, ◌↔◌, List, [], ◌∷◌, ◌++◌, Bool, true, false, not, ◌&&◌, ◌||◌, Option,
  none, some, if◌then◌else◌, nat_eq, list_eq, Eq, ◌==◌, eq_iff, contains, arith,
}
use cgpipe.Exec.{Result, Exec}
use cgpipe.Text.{Str, codes, has_prefix, contains_text}
use cgpipe.Runner.Target.{Target, Program, Pos, no_pos}
use cgpipe.Runner.Wildcard.{match_wildcard, instantiate}

-- A *eval.Target that the driver handles.
pub data Ref : Type 0 where
  rule : ℕ → Ref
  inst : ℕ → Str → Ref
  setup teardown : Ref

abbrev pub ref_beq : Ref → Ref → Bool
ref_beq (rule i) (rule j) = i == j
ref_beq (inst i s) (inst j t) = i == j && s == t
ref_beq setup setup = true
ref_beq teardown teardown = true
ref_beq _ _ = false

pub ref_beq_iff : (r t : Ref) → (ref_beq r t ≡ true) ↔ (r ≡ t)
ref_beq_iff (inst i s) (inst j t) = ground (arith, eq_iff s t)
ref_beq_iff (rule i) (rule j) = ground arith
ref_beq_iff setup _ = ground arith
ref_beq_iff _ _ = ground arith

instance abbrev pub ref_eq : Eq Ref
ref_eq = record { beq = ref_beq; beq_iff = ref_beq_iff }

-- The errors of the driver, by their messages, and the end of the model's fuel.
pub data Error : Type 0 where
  no_goal : Error
  no_rule_goal : Str → Error
  no_rule : Str → List Str → Error
  cycle : List Str → Error
  array_index_error : Str → Str → Error
  duplicate_index : Str → ℕ → Error
  many_partners : Str → Error
  partner_not_array : Str → Str → Error
  partner_lacks : Str → Str → ℕ → Error
  differing_deps : Str → Error
  per_element : Str → Error
  not_array_capable : Str → Error
  backend_error : Str → Error
  out_of_fuel : Error

-- What the backend has been asked to do.
pub data Event : Type 0 where
  submitted : Ref → List Str → Str → Event
  array_submitted : List Ref → List ℕ → List Str → List Str → Str → Event
  hook : Ref → Str → Event

-- arrayBackend.SubmitArray: the members' job ids and the array's base id.
abbrev pub SubmitArray : Type 0
SubmitArray = List Event → List Ref → List ℕ → List Str → List Str → Result Str ((Ref → Str) × Str)

-- A Backend: its answer may depend on all that it was asked before.
pub record Backend : Type 0 where
  pub submit : List Event → Ref → List Str → Result Str Str
  -- `none` for a backend without arrays
  pub submit_array : Option SubmitArray
  pub external_dep : Str → Option Str
  -- the error of PostSubmit, if any
  pub post_submit : List Event → Ref → Str → Option Str

-- The program, the options, and what the driver calls. `stat` is the file's mtime, or `none` where
-- there is no file, as Cache.stat answers it.
pub record Env : Type 0 where
  pub prog : Program
  pub goals : List Str
  pub dir : Str
  pub force : Bool
  pub stat : Str → Option ℕ
  pub backend : Backend
  -- Program.ArrayIndex, of eval
  pub array_index : Target → Result Str (Option ℕ)

-- resolved
pub record Resolved : Type 0 where
  pub will_run : Bool
  pub eff : ℕ

-- arrayGroup; the group is known by the position of its declaration
pub record ArrayGroup : Type 0 where
  pub name : Str
  pub members : List Ref
  pub index : List (Ref × ℕ)

pub record Arrays : Type 0 where
  pub groups : List (Pos × ArrayGroup)
  pub array_of : List (Ref × Pos)

-- The fields of `driver` that change during a build.
pub record Driver : Type 0 where
  pub chosen : List (Str × Option Ref)
  pub sat : List (Ref × Bool)
  pub sat_active : List (Ref × Bool)
  pub memo : List (Ref × Resolved)
  pub resolving : List (Ref × Bool)
  pub job_id : List (Ref × Str)
  pub done : List (Ref × Bool)
  pub array_done : List (Pos × Bool)
  pub array_base : List (Pos × Str)
  -- the calls of the backend, the last one first
  pub trace : List Event

abbrev pub new_driver : Driver
new_driver = record {
  chosen = [];
  sat = [];
  sat_active = [];
  memo = [];
  resolving = [];
  job_id = [];
  done = [];
  array_done = [];
  array_base = [];
  trace = [];
}

abbrev pub M : Type 0 → Type 0
M A = Exec Driver Error A

abbrev empty_target : Target
empty_target = record {
  pos = no_pos;
  special = [];
  outputs = [];
  temp = [];
  inputs = [];
  body = [];
  has_body = false;
  stem = [];
}

-- The program's targets with their references.
unfoldable pub refs_from : ℕ → List Target → List (Ref × Target)
refs_from i [] = []
refs_from i (t ∷ ts) = (rule i, t) ∷ refs_from (suc i) ts

target_at : ℕ → List Target → Target
target_at i [] = empty_target
target_at zero (t ∷ ts) = t
target_at (suc i) (t ∷ ts) = target_at i ts

abbrev pub is_some {ℓ} : {A : Type ℓ} → Option A → Bool
is_some none = false
is_some (some a) = true

abbrev or_empty : Option Target → Target
or_empty none = empty_target
or_empty (some t) = t

any_wild : List Str → Bool
any_wild [] = false
any_wild (o ∷ os) = contains_text o (codes "%") || any_wild os

is_wild : Target → Bool
unfolding any_wild contains_text
is_wild t = any_wild t.outputs

-- One `rule` entry for each output that is the path.
outputs_equal : Str → Ref → List Str → List Ref
outputs_equal path r [] = []
outputs_equal path r (o ∷ os) =
    let rest = outputs_equal path r os in if o == path then r ∷ rest else rest

-- r.candidates[path]: the rules without `%` that list the path, in source order.
explicit_for : Str → List (Ref × Target) → List Ref
unfolding outputs_equal is_wild
explicit_for path [] = []
explicit_for path ((r, t) ∷ ts) =
    let rest = explicit_for path ts in
    if is_wild t then rest else outputs_equal path r t.outputs ++ rest

-- The instances of the `%` rules that match the path, in source order.
instances_for : Str → ℕ → List Target → List Ref
unfolding is_wild match_wildcard
instances_for path i [] = []
instances_for path i (t ∷ ts) =
    let rest = instances_for path (suc i) ts in
    if is_wild t
    then (elim (match_wildcard t path) [ none ↦ rest | some stem ↦ inst i stem ∷ rest ])
    else rest

module _ (env : Env) where
  -- The target behind a reference.
  unfoldable pub target_of : Ref → Target
  unfolding target_at instantiate
  target_of (rule i) = target_at i env.prog.targets
  target_of (inst i stem) = instantiate (target_at i env.prog.targets) stem
  target_of setup = or_empty env.prog.setup
  target_of teardown = or_empty env.prog.teardown

  -- candCache and wildInstances keep the answers of this function.
  unfoldable pub candidates_for : Str → List Ref
  unfolding explicit_for instances_for refs_from
  candidates_for path =
      explicit_for path (refs_from 0 env.prog.targets) ++ instances_for path 0 env.prog.targets

  -- driver.path
  unfoldable pub path : Str → Str
  unfolding has_prefix
  path p = if env.dir == [] || has_prefix p (codes "/") then p else env.dir ++ (codes "/" ++ p)

  unfoldable pub stat_mtime : Str → Option ℕ
  unfolding path
  stat_mtime p = env.stat (path p)

  unfoldable pub stat_exists : Str → Bool
  unfolding stat_mtime
  stat_exists p = is_some (stat_mtime p)

  unfoldable pub external_dep : Str → Option Str
  external_dep p = env.backend.external_dep p
