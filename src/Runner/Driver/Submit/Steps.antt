-- ===== src/Runner/Driver/Submit/Steps.antt =====
-- What a step of the driver does to the marks of `done` and to the runs of the backend, with a rule
-- for each way to build a step.
use mathlib.Core.List.{Memᴰ}
use mathlib.Core.List.Memᴰ
use mathlib.Core.Logic.{⊎_elim}
use cgpipe.Prelude.{
  List, [], ◌∷◌, ◌++◌, Bool, true, false, list_eq, nat_eq, if◌then◌else◌, ◌≡◌, refl, subst, ◌⊎◌,
  inl, inr, eq_self, Bool-cases, arith,
}
use cgpipe.Prelude.Assoc.{insert, flag, flag-insert}
use cgpipe.Exec.{Result, Exec, pure, fail, gets, modify, lift, ◌>>=◌, for_each}
use cgpipe.Exec.Triple.{
  Triple, triple_pure, triple_fail, triple_gets, triple_pre, triple_post, triple_bind,
  triple_modify, triple_lift, triple_from,
}
use cgpipe.Runner.Target.{pos_eq}
use cgpipe.Runner.Driver.{Ref, ref_eq, Error, Driver, Event, submitted, array_submitted, hook}

-- The targets that the backend was asked to run, the last one first.
unfoldable pub runs_of : List Event → List Ref
runs_of [] = []
runs_of (submitted t deps id ∷ es) = t ∷ runs_of es
runs_of (array_submitted ms idxs deps aftercorr base ∷ es) = ms ++ runs_of es
runs_of (hook t id ∷ es) = runs_of es

-- No item stands in the list twice.
abbrev pub IsSimple : List Ref → Type 0
IsSimple [] = Unit
IsSimple (r ∷ rs) = (¬ Memᴰ r rs) × IsSimple rs

-- Every target that was run is marked, and none was run twice.
pub record IsOnce (s : Driver) : Type 0 where
  pub simple : IsSimple (runs_of s.trace)
  pub marked : (r : Ref) → Memᴰ r (runs_of s.trace) → flag r s.done ≡ true

-- From `d` to `s` marks are kept, and what was marked is not run again.
pub record Grows (d s : Driver) : Type 0 where
  pub kept : (r : Ref) → flag r d.done ≡ true → flag r s.done ≡ true
  pub no_rerun :
      (r : Ref) → flag r d.done ≡ true → Memᴰ r (runs_of s.trace) → Memᴰ r (runs_of d.trace)

-- What each step promises, whether it returns or fails.
pub record Steps (d s : Driver) : Type 0 where
  pub once : IsOnce s
  pub grows : Grows d s

abbrev pub IsStep {ℓ} : {A : Type ℓ} → Exec Driver Error A → Type ℓ
IsStep m = (d : Driver) → IsOnce d → Triple (λ s. s ≡ d) m (λ _ s. Steps d s) (λ _ s. Steps d s)

Grows-refl : (d : Driver) → Grows d d
Grows-refl d = record { kept = λ r h. h; no_rerun = λ r h m. m }

Grows-trans : (a b c : Driver) → Grows a b → Grows b c → Grows a c
Grows-trans a b c g h = record {
  kept = λ r m. h.kept r (g.kept r m);
  no_rerun = λ r m n. g.no_rerun r m (h.no_rerun r (g.kept r m) n);
}

pub Steps-trans : (a b c : Driver) → Steps a b → Steps b c → Steps a c
Steps-trans a b c g h = record { once = h.once; grows = Grows-trans a b c g.grows h.grows }

-- A method that leaves the marks and the runs alone.
pub same_runs :
    (d s : Driver) → IsOnce d → s.done ≡ d.done → runs_of s.trace ≡ runs_of d.trace → Steps d s
same_runs d s h e f = record {
  once = record { simple = rw f h.simple; marked = λ r m. rw e (h.marked r (subst (Memᴰ r) f m)) };
  grows = record { kept = λ r m. rw e m; no_rerun = λ r k m. subst (Memᴰ r) f m };
}

pub IsStep-pure {ℓ} : {A : Type ℓ} (a : A) → IsStep (pure a)
IsStep-pure a d h = triple_pre (λ s e. rw e (same_runs d d h refl refl)) (triple_pure a)

pub IsStep-fail {ℓ} : {A : Type ℓ} (e : Error) → IsStep {A = A} (fail e)
IsStep-fail x d h = triple_pre (λ s e. rw e (same_runs d d h refl refl)) (triple_fail x)

pub IsStep-gets {ℓ} : {A : Type ℓ} (f : Driver → A) → IsStep (gets f)
IsStep-gets f d h = triple_gets f (λ s e. rw e (same_runs d d h refl refl))

pub IsStep-lift {ℓ} : {A : Type ℓ} (r : Result Error A) → IsStep (lift r)
IsStep-lift r d h =
    triple_lift r (λ a q s e. rw e (same_runs d d h refl refl))
      (λ x q s e. rw e (same_runs d d h refl refl))

pub IsStep-modify :
    (f : Driver → Driver)
    → ((s : Driver) → (f s).done ≡ s.done)
    → ((s : Driver) → runs_of (f s).trace ≡ runs_of s.trace)
    → IsStep (modify f)
IsStep-modify f e g d h = triple_modify (Steps d) f (λ s q. rw q (same_runs d (f d) h (e d) (g d)))

pub IsStep-bind {ℓ κ} :
    {A : Type ℓ} {B : Type κ} {m : Exec Driver Error A} {f : A → Exec Driver Error B}
    → IsStep m
    → ((a : A) → IsStep (f a))
    → IsStep (m >>= f)
IsStep-bind hm hf d h = triple_bind (hm d h) λ a. triple_from λ now g.
    triple_post (λ b s k. Steps-trans d now s g k) (λ e s k. Steps-trans d now s g k)
      (hf a now g.once)

pub IsStep-for_each {ℓ κ} :
    {A : Type ℓ} {B : Type κ} (f : B → A → Exec Driver Error B)
    → ((b : B) (a : A) → IsStep (f b a))
    → (xs : List A) (b : B) → IsStep (for_each f xs b)
unfolding for_each
IsStep-for_each f hf [] b = IsStep-pure b
IsStep-for_each f hf (x ∷ xs) b = IsStep-bind (hf b x) λ b'. IsStep-for_each f hf xs b'

pub IsStep-if {ℓ} :
    {A : Type ℓ} {m n : Exec Driver Error A} (b : Bool)
    → IsStep m
    → IsStep n
    → IsStep (if b then m else n)
IsStep-if true hm hn = hm
IsStep-if false hm hn = hn

-- The targets `ms` were not marked in `d`, are marked by now, and are yet to be run.
pub record Pending (d : Driver) (ms : List Ref) (s : Driver) : Type 0 where
  pub steps : Steps d s
  pub distinct : IsSimple ms
  pub fresh : (m : Ref) → Memᴰ m ms → flag m d.done ≡ false
  pub marked : (m : Ref) → Memᴰ m ms → flag m s.done ≡ true
  pub unrun : (m : Ref) → Memᴰ m ms → ¬ Memᴰ m (runs_of s.trace)

pub Pending-step {ℓ} :
    {A : Type ℓ} {m : Exec Driver Error A} (d : Driver) (ms : List Ref)
    → IsStep m
    → Triple (Pending d ms) m (λ _. Pending d ms) (λ _. Steps d)
Pending-step d ms hm = triple_from λ now h.
    triple_post
      (λ a s k. record {
        steps = Steps-trans d now s h.steps k;
        distinct = h.distinct;
        fresh = h.fresh;
        marked = λ r m. k.grows.kept r (h.marked r m);
        unrun = λ r m ran. h.unrun r m (k.grows.no_rerun r (h.marked r m) ran);
      })
      (λ e s k. Steps-trans d now s h.steps k) (hm now h.steps.once)

pub mark-Pending :
    (d : Driver) (ms : List Ref) (t : Ref) (s : Driver)
    → Pending d ms s
    → flag t s.done ≡ false
    → Pending d (t ∷ ms) (record s { done = insert t true s.done })
mark-Pending d ms t s h off =
    let keep = λ (r : Ref) (on : flag r s.done ≡ true). kept_by_insert r on in
    let new : flag t d.done ≡ false = not_before (Bool-cases (flag t d.done)) in
    record {
      steps = record {
        once = record {
          simple = h.steps.once.simple;
          marked = λ r m. keep r (h.steps.once.marked r m);
        };
        grows = record {
          kept = λ r m. keep r (h.steps.grows.kept r m);
          no_rerun = h.steps.grows.no_rerun;
        };
      };
      distinct = (λ m. cc (h.marked t m, off), h.distinct);
      fresh = λ r m. ⊎_elim (λ e. rw e new) (h.fresh r) (Memᴰ.cases_cons m);
      marked = λ r m.
          ⊎_elim (λ e. rw e (rw (flag-insert t t true s.done, eq_self t)))
            (λ k. keep r (h.marked r k)) (Memᴰ.cases_cons m);
      unrun = λ r m.
          ⊎_elim
            (λ e ran. cc (h.steps.once.marked t (subst (λ v. Memᴰ v (runs_of s.trace)) e ran), off))
            (h.unrun r) (Memᴰ.cases_cons m);
    }
  where
    kept_by_insert : (r : Ref) → flag r s.done ≡ true → flag r (insert t true s.done) ≡ true
    kept_by_insert r on = ground (arith, flag-insert t r true s.done)

    not_before : (flag t d.done ≡ true) ⊎ (flag t d.done ≡ false) → flag t d.done ≡ false
    not_before (inl on) = absurd (cc (h.steps.grows.kept t on, off))
    not_before (inr none_yet) = none_yet
