-- ===== src/Runner/Driver/Submit/Pending.antt =====
-- Runs of pending targets: one by one, or an array at once.
use mathlib.Core.List.{Memᴰ}
use mathlib.Core.List.Memᴰ
use mathlib.Core.Logic.{⊎_elim}
use cgpipe.Prelude.{ℕ, List, [], ◌∷◌, ◌++◌, true, list_eq, nat_eq, ◌≡◌, refl, subst}
use cgpipe.Prelude.Assoc.{flag}
use cgpipe.Text.{Str}
use cgpipe.Runner.Target.{pos_eq, Pos}
use cgpipe.Runner.Driver.{Ref, ref_eq, Driver, submitted, array_submitted}
use cgpipe.Runner.Driver.Submit.Steps.{runs_of, IsSimple, IsOnce, Steps, same_runs, Pending}

-- One pending target is run.
pub ran_one :
    (d : Driver) (t : Ref) (ms : List Ref) (deps : List Str) (id : Str) (s : Driver)
    → Pending d (t ∷ ms) s
    → Pending d ms (record s { trace = submitted t deps id ∷ s.trace })
unfolding runs_of
ran_one d t ms deps id s h =
    let here : Memᴰ t (t ∷ ms) = Memᴰ.head refl in
    record {
      steps = record {
        once = record {
          simple = (h.unrun t here, h.steps.once.simple);
          marked = λ r m.
              ⊎_elim (λ e. rw e (h.marked t here)) (h.steps.once.marked r) (Memᴰ.cases_cons m);
        };
        grows = record {
          kept = h.steps.grows.kept;
          no_rerun = λ r on m.
              ⊎_elim (λ e. absurd (cc (subst (λ v. flag v d.done ≡ true) e on, h.fresh t here)))
                (h.steps.grows.no_rerun r on) (Memᴰ.cases_cons m);
        };
      };
      distinct = h.distinct.1;
      fresh = λ r m. h.fresh r (Memᴰ.tail m);
      marked = λ r m. h.marked r (Memᴰ.tail m);
      unrun = λ r m ran.
          ⊎_elim (λ e. h.distinct.0 (subst (λ v. Memᴰ v ms) e m)) (h.unrun r (Memᴰ.tail m))
            (Memᴰ.cases_cons ran);
    }

pub IsSimple-append :
    (xs ys : List Ref)
    → IsSimple xs
    → IsSimple ys
    → ((r : Ref) → Memᴰ r xs → ¬ Memᴰ r ys)
    → IsSimple (xs ++ ys)
IsSimple-append [] ys h k apart = k
IsSimple-append (x ∷ xs) ys h k apart = (
  λ m. ⊎_elim h.0 (apart x (Memᴰ.head refl)) (Memᴰ.append_cases xs m),
  IsSimple-append xs ys h.1 k (λ r m. apart r (Memᴰ.tail m)),
)

-- All pending targets are run at once.
pub ran_all :
    (d : Driver) (ms : List Ref) (idxs : List ℕ) (deps aftercorr : List Str) (base : Str)
    (bases : List (Pos × Str)) (s : Driver)
    → Pending d ms s
    → Steps d (record s {
      array_base = bases;
      trace = array_submitted ms idxs deps aftercorr base ∷ s.trace;
    })
unfolding runs_of
ran_all d ms idxs deps aftercorr base bases s h = record {
  once = record {
    simple = IsSimple-append ms (runs_of s.trace) h.distinct h.steps.once.simple h.unrun;
    marked = λ r m. ⊎_elim (h.marked r) (h.steps.once.marked r) (Memᴰ.append_cases ms m);
  };
  grows = record {
    kept = h.steps.grows.kept;
    no_rerun = λ r on m.
        ⊎_elim (λ new. absurd (cc (on, h.fresh r new))) (h.steps.grows.no_rerun r on)
          (Memᴰ.append_cases ms m);
  };
}

-- The order of the pending targets does not matter.
pub IsSimple-last : (m : Ref) (xs : List Ref) → IsSimple (m ∷ xs) → IsSimple (xs ++ (m ∷ []))
IsSimple-last m xs h =
    IsSimple-append xs (m ∷ []) h.1 (Memᴰ.not-nil, tt)
      λ r a b. h.0 (subst (λ v. Memᴰ v xs) (Memᴰ.eq_of_singleton b) a)

pub Pending-last :
    (d : Driver) (m : Ref) (ms : List Ref) (s : Driver)
    → Pending d (m ∷ ms) s
    → Pending d (ms ++ (m ∷ [])) s
Pending-last d m ms s h =
    let move = λ (r : Ref) (k : Memᴰ r (ms ++ (m ∷ []))).
      let back : Memᴰ r (m ∷ ms) =
        ⊎_elim Memᴰ.tail (λ e. Memᴰ.head (Memᴰ.eq_of_singleton e)) (Memᴰ.append_cases ms k) in
      back in
    record {
      steps = h.steps;
      distinct = IsSimple-last m ms h.distinct;
      fresh = λ r k. h.fresh r (move r k);
      marked = λ r k. h.marked r (move r k);
      unrun = λ r k. h.unrun r (move r k);
    }

pub Pending-tail :
    (d : Driver) (m : Ref) (ms : List Ref) (s : Driver) → Pending d (m ∷ ms) s → Pending d ms s
Pending-tail d m ms s h = record {
  steps = h.steps;
  distinct = h.distinct.1;
  fresh = λ r k. h.fresh r (Memᴰ.tail k);
  marked = λ r k. h.marked r (Memᴰ.tail k);
  unrun = λ r k. h.unrun r (Memᴰ.tail k);
}

pub nothing-Pending : (d : Driver) → IsOnce d → Pending d [] d
nothing-Pending d h = record {
  steps = same_runs d d h refl refl;
  distinct = tt;
  fresh = λ m k. absurd (Memᴰ.not-nil k);
  marked = λ m k. absurd (Memᴰ.not-nil k);
  unrun = λ m k. absurd (Memᴰ.not-nil k);
}
