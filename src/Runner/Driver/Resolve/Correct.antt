-- ===== src/Runner/Driver/Resolve/Correct.antt =====
-- `resolve` of driver.go, with its memo and its marks, against the relation `Resolves`.
use mathlib.Core.List.{Memᴰ, head?}
use mathlib.Core.Logic.{⊎_elim}
use cgpipe.Prelude.{
  ℕ, zero, suc, ◌≤◌, ◌<◌, List, [], ◌∷◌, Bool, true, false, Option, none, some, list_eq, nat_eq,
  if◌then◌else◌, ◌≡◌, refl, ◌∙◌, sym, ap, subst, ◌==◌, arith,
}
use cgpipe.Prelude.Assoc.{lookup, insert, remove, flag, insert_cases, flag-insert}
use cgpipe.Exec.{err}
use cgpipe.Exec.Triple.{
  Triple, triple_pure, triple_gets, triple_pre, triple_given, triple_never, triple_post,
  triple_bind, triple_modify, triple_for_each, triple_finally, triple_from, triple_lift,
}
use cgpipe.Text.{Str}
use cgpipe.Runner.Driver.{
  Ref, ref_eq, Error, no_rule, Env, Driver, M, Resolved, target_of, candidates_for, stat_mtime,
  external_dep, is_some,
}
use cgpipe.Runner.Driver.Choose.Decides.{IsRanked, Above, Above-insert, not_active, flag_restored}
use cgpipe.Runner.Driver.Choose.Producer.{
  IsChoice, can, cannot, IsChosen, Picks, choice_mem, producer_for-Picks,
}
use cgpipe.Runner.Driver.Resolve.{
  Scan, no_inputs, after_rule, after_file, finish, scan_made, scan_input, decide, unless_resolved,
  resolve,
}
use cgpipe.Runner.Driver.Resolve.Meaning.{Scans, stop, made, found, Resolves, resolves}

module _ (env : Env) where
  -- The only error: an input that is not on disk, has no rule and no job that will make it.
  pub record IsMissing (e : Error) : Type 0 where
    pub input : Str
    pub needed_by : List Str
    pub no_rule_error : e ≡ no_rule input needed_by
    pub no_candidate : candidates_for env input ≡ []
    pub no_file : stat_mtime env input ≡ none
    pub no_job : is_some (external_dep env input) ≡ false

  abbrev pub Misses : Error → Driver → Type 0
  Misses e s = IsMissing e

  -- The driver without what `resolve` and the choice of rules write.
  abbrev pub jobs_of : Driver → Driver
  jobs_of s = record s { sat = []; sat_active = []; chosen = []; memo = []; resolving = [] }

  -- The memos are right, the targets under way are those of `busy`, and the jobs are those of `d`.
  pub record IsReady (busy : List (Ref × Bool)) (d s : Driver) : Type 0 where
    pub chosen : IsChosen env s
    pub memo : (t : Ref) (r : Resolved) → lookup t s.memo ≡ some r → Resolves env t r
    pub marks : (u : Ref) → flag u s.resolving ≡ flag u busy
    pub jobs : jobs_of s ≡ jobs_of d

  -- The memos of the choice do not depend on those of `resolve`.
  IsChosen-kept :
      {s : Driver} (memo' : List (Ref × Resolved)) (resolving' : List (Ref × Bool))
      → IsChosen env s
      → IsChosen env (record s { memo = memo'; resolving = resolving' })
  IsChosen-kept memo' resolving' h = record {
    good = record {
      exact = record {
        true_entries = h.good.exact.true_entries;
        false_entries = h.good.exact.false_entries;
      };
      same = h.good.same;
    };
    choices = h.choices;
  }

  after_file_misses :
      (outs : List Str) (acc : Scan) (p : Str) (e : Error)
      → IsChoice env (candidates_for env p) none
      → after_file env outs acc p ≡ err e
      → IsMissing e
  unfolding after_file
  after_file_misses outs acc p e (can c first eq) h = cc eq
  after_file_misses outs acc p e (cannot _ eq) h = record {
    input = p;
    needed_by = outs;
    no_rule_error = ground arith;
    no_candidate = empty_of_head (candidates_for env p) eq;
    no_file = ground arith;
    no_job = ground arith;
  }
    where
      empty_of_head : (cs : List Ref) → none ≡ head? cs → cs ≡ []
      empty_of_head [] q = refl
      empty_of_head (c ∷ cs) q = cc q

  module _ (rank : Ref → ℕ) (ranked : IsRanked env rank) (depth : ℕ) (d : Driver) where
    abbrev pub Resolver : (Ref → M Resolved) → ℕ → Type 0
    Resolver self bound =
        (c : Ref) (busy : List (Ref × Bool))
        → rank c < bound
        → Above env rank ranked (rank c) busy
        → Triple (IsReady busy d) (self c) (λ r s. IsReady busy d s × Resolves env c r) Misses

    module _ (self : Ref → M Resolved) (t : Ref) (busy : List (Ref × Bool)) (fits : rank t < depth)
        (above : Above env rank ranked (rank t) busy) (ih : Resolver self (rank t)) where
      abbrev inner : List (Ref × Bool)
      inner = insert t true busy

      abbrev outs : List Str
      outs = (target_of env t).outputs

      abbrev ins : List Str
      ins = (target_of env t).inputs

      abbrev Inside : List Str → Type 0
      Inside ps = (p : Str) → Memᴰ p ps → Memᴰ p ins

      abbrev Onward : List Str → Scan → Type 0
      Onward ps acc = (out : Scan) → Scans env outs acc ps out → Scans env outs no_inputs ins out

      record Going (ps : List Str) (acc : Scan) (s : Driver) : Type 0 where
        ready : IsReady inner d s
        inside : Inside ps
        onward : Onward ps acc

      Picks-IsReady :
          (p : Str) (now s : Driver) (r : Option Ref)
          → IsReady inner d now
          → Picks env rank ranked depth p now r s
          → IsReady inner d s
      Picks-IsReady p now s r h (chosen, work, choice) = record {
        chosen = chosen;
        memo = λ u v e. h.memo u v (ap (λ (x : Driver). lookup u x.memo) (sym work) ∙ e);
        marks = λ u. ap (λ (x : Driver). flag u x.resolving) work ∙ h.marks u;
        jobs = ap jobs_of work ∙ h.jobs;
      }

      made-scans :
          (p : Str) (rest : List Str) (acc : Scan) (r : Option Ref)
          → Memᴰ p ins
          → Inside rest
          → Onward (p ∷ rest) acc
          → IsChoice env (candidates_for env p) r
          → Triple (IsReady inner d) (scan_made env self outs acc p r) (Going rest) Misses
      unfolding scan_made
      made-scans p rest acc (some c) m inside onward choice =
          let low = ranked t p c m (choice_mem (candidates_for env p) c choice) in
          triple_bind (ih c inner low (Above-insert env rank ranked t (rank c) busy low above))
            λ sub.
              triple_pre
                (λ s h. record {
                  ready = h.0;
                  inside = inside;
                  onward = λ out more. onward out (made outs acc p rest out c sub choice h.1 more);
                })
                (triple_pure (after_rule acc sub))
      made-scans p rest acc none m inside onward choice =
          triple_lift (after_file env outs acc p)
            (λ acc' e s h. record {
              ready = h;
              inside = inside;
              onward = λ out more. onward out (found outs acc p rest out acc' choice e more);
            })
            (λ x e s h. after_file_misses outs acc p x choice e)

      scan-step :
          (p : Str) (rest : List Str) (acc : Scan)
          → Triple (Going (p ∷ rest) acc) (scan_input env depth self outs acc p) (Going rest) Misses
      unfolding scan_input
      scan-step p rest acc = triple_from λ now h.
          let m = h.inside p (Memᴰ.head refl) in
          triple_bind {M = λ r s. IsReady inner d s × IsChoice env (candidates_for env p) r}
            (triple_post (λ r s k. (Picks-IsReady p now s r h.ready k, k.2)) (λ e s k. absurd k)
              (triple_pre (λ s e. (e, subst (IsChosen env) (sym e) h.ready.chosen))
                (producer_for-Picks env rank ranked depth p now
                  (λ c mc. omega (arith, ranked t p c m mc)))))
            λ r.
              triple_given {F = IsChoice env (candidates_for env p) r} (λ s k. k.1)
                λ choice.
                  triple_pre (λ s k. k.0)
                    (made-scans p rest acc r m (λ q mq. h.inside q (Memᴰ.tail mq)) h.onward choice)

      begin-scan :
          (s : Driver)
          → IsReady busy d s
          → Going ins no_inputs (record s { resolving = insert t true s.resolving })
      begin-scan s h = record {
        ready = record {
          chosen = IsChosen-kept _ _ h.chosen;
          memo = h.memo;
          marks = λ u.
              flag-insert t u true s.resolving
              ∙ (ap (λ b. if t == u then true else b) (h.marks u)
                  ∙ sym (flag-insert t u true busy));
          jobs = h.jobs;
        };
        inside = λ p m. m;
        onward = λ out scans. scans;
      }

      abbrev Concludes : Resolved → Driver → Type 0
      Concludes r s = IsReady inner d s × Resolves env t r

      keep-memo :
          (acc : Scan) (s : Driver)
          → Going [] acc s
          → Concludes
              (finish env (target_of env t) acc)
              (record s { memo = insert t (finish env (target_of env t) acc) s.memo })
      keep-memo acc s h =
          let answer = resolves t acc (h.onward acc (stop outs acc)) in
          (
            record {
              chosen = IsChosen-kept _ _ h.ready.chosen;
              memo = λ u r e.
                  ⊎_elim
                    (λ same. subst (Resolves env u) same.1 (
                      subst (λ v. Resolves env v (finish env (target_of env t) acc)) same.0 answer))
                    (h.ready.memo u r)
                    (insert_cases t u (finish env (target_of env t) acc) r s.memo e);
              marks = h.ready.marks;
              jobs = h.ready.jobs;
            },
            answer,
          )

      unmark :
          (r : Resolved) (s : Driver)
          → Concludes r s
          → IsReady busy d (record s { resolving = remove t s.resolving }) × Resolves env t r
      unmark r s h = (
        record {
          chosen = IsChosen-kept _ _ h.0.chosen;
          memo = h.0.memo;
          marks = λ u.
              flag_restored env rank ranked t u busy s.resolving
                (not_active env rank ranked t busy above) (h.0.marks u);
          jobs = h.0.jobs;
        },
        h.1,
      )

      decide_correct :
          Triple
            (IsReady busy d)
            (decide env depth self t)
            (λ r s. IsReady busy d s × Resolves env t r)
            Misses
      unfolding decide
      decide_correct =
          triple_finally (λ s. record s { resolving = remove t s.resolving }) unmark (λ e s h. h)
            (triple_bind (triple_modify (Going ins no_inputs) _ begin-scan) λ _.
              triple_bind
                (triple_for_each Going (scan_input env depth self outs) scan-step ins no_inputs)
                λ acc.
                  triple_bind
                    (triple_modify (Concludes (finish env (target_of env t) acc)) _ (keep-memo acc))
                    λ _. triple_pure (finish env (target_of env t) acc))

      known_correct :
          (now : Driver) (v : Option Resolved) (marked : Bool)
          → lookup t now.memo ≡ v
          → flag t now.resolving ≡ marked
          → Triple
              (λ s. (s ≡ now) × IsReady busy d s)
              (unless_resolved v marked outs (decide env depth self t))
              (λ r s. IsReady busy d s × Resolves env t r)
              Misses
      known_correct now (some r) marked e f =
          triple_pre (λ s h. (h.1, h.1.memo t r (ap (λ (x : Driver). lookup t x.memo) h.0 ∙ e)))
            (triple_pure r)
      known_correct now none true e f = triple_never λ s h.
          let on = ap (λ (x : Driver). flag t x.resolving) h.0 ∙ f in
          cc (on, h.1.marks t, not_active env rank ranked t busy above)
      known_correct now none false e f = triple_pre (λ s h. h.1) decide_correct

    -- With right memos and no target under way at or below `t`, `resolve` returns the answer that
    -- `Resolves` derives, or the error that an input cannot be had; never a cycle, nor the end of
    -- the fuel.
    pub resolve_correct : (fuel : ℕ) → fuel ≤ depth → Resolver (resolve env depth fuel) fuel
    unfolding resolve
    resolve_correct zero le t busy low above = absurd (omega arith)
    resolve_correct (suc fuel) le t busy low above =
        triple_bind
          (triple_gets {Q = λ now s. (s ≡ now) × IsReady busy d s} (λ s. s) (λ s h. (refl, h)))
          λ now.
            known_correct (resolve env depth fuel) t busy (omega arith) above
              (λ c b lower free. resolve_correct fuel (omega arith) c b (omega arith) free) now
              (lookup t now.memo) (flag t now.resolving) refl refl
