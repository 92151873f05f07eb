-- ===== src/Runner/Driver/Resolve/Meaning.antt =====
-- What `resolve` stands for without its memo and its marks, and what an answer says of the files.
use mathlib.Core.List.{Memᴰ}
use mathlib.Core.List.Memᴰ
use mathlib.Core.Logic.{⊎_elim}
use cgpipe.Prelude.{
  ℕ, ◌≤◌, List, [], ◌∷◌, true, false, Option, none, some, list_eq, nat_eq, if◌then◌else◌, ltb, ◌≡◌,
  refl, arith, ◌⊎◌, inl, inr, Option-cases, subst, sym, ap, ◌∙◌,
}
use cgpipe.Exec.{ok}
use cgpipe.Text.{Str}
use cgpipe.Runner.Target.{Target, is_temp}
use cgpipe.Runner.Driver.{Ref, Env, Resolved, target_of, candidates_for, stat_exists, stat_mtime}
use cgpipe.Runner.Driver.Choose.Producer.{IsChoice}
use cgpipe.Runner.Driver.Resolve.{
  Scan, no_inputs, after_rule, after_file, lacks_output, has_older_output, oldest_output, must_run,
  finish, max_int64, sooner,
}

-- `Scans outs acc ps out`: the loop over the inputs `ps` takes `acc` to `out`.
mutual
  pub data Scans (env : Env) : List Str → Scan → List Str → Scan → Type 0 where
    stop : (outs : List Str) (acc : Scan) → Scans env outs acc [] acc
    made :
        (outs : List Str) (acc : Scan) (p : Str) (ps : List Str) (out : Scan) (c : Ref)
        (r : Resolved)
        → IsChoice env (candidates_for env p) (some c)
        → Resolves env c r
        → Scans env outs (after_rule acc r) ps out
        → Scans env outs acc (p ∷ ps) out
    found :
        (outs : List Str) (acc : Scan) (p : Str) (ps : List Str) (out acc' : Scan)
        → IsChoice env (candidates_for env p) none
        → after_file env outs acc p ≡ ok acc'
        → Scans env outs acc' ps out
        → Scans env outs acc (p ∷ ps) out

  pub data Resolves (env : Env) : Ref → Resolved → Type 0 where
    resolves :
        (t : Ref) (out : Scan)
        → Scans env (target_of env t).outputs no_inputs (target_of env t).inputs out
        → Resolves env t (finish env (target_of env t) out)

module _ (env : Env) where
  -- No output of the target that is on disk is older than `time`.
  abbrev pub NoneOlder : Ref → ℕ → Type 0
  NoneOlder t time =
      (o : Str) (m : ℕ) → Memᴰ o (target_of env t).outputs → stat_mtime env o ≡ some m → time ≤ m

  -- An input that calls for no rebuild of what was made at `newest` or later.
  pub data Settled (newest : ℕ) (p : Str) : Type 0 where
    by_file :
        (m : ℕ)
        → IsChoice env (candidates_for env p) none
        → stat_mtime env p ≡ some m
        → m ≤ newest
        → Settled newest p
    by_target :
        (c : Ref) (r : Resolved)
        → IsChoice env (candidates_for env p) (some c)
        → Resolves env c r
        → r.will_run ≡ false
        → NoneOlder c r.eff
        → r.eff ≤ newest
        → Settled newest p

  oldest_some :
      (best : ℕ) (os : List Str)
      → (b : ℕ) × (oldest_output env (some best) os ≡ some b) × (b ≤ best)
  unfolding oldest_output
  oldest_some best [] = (best, refl, omega arith)
  oldest_some best (o ∷ os) = elim (Option-cases (stat_mtime env o)) [
    | inl off ↦ rw (off, oldest_output) (oldest_some best os)
    | inr (m, on) ↦
        let (b, e, le) = oldest_some (if ltb m best then m else best) os in
        (b, rw (on, oldest_output) e, ground arith)
  ]

  oldest_here :
      (best : Option ℕ) (os : List Str) (o : Str) (m : ℕ)
      → stat_mtime env o ≡ some m
      → (b : ℕ) × (oldest_output env best (o ∷ os) ≡ some b) × (b ≤ m)
  unfolding oldest_output
  oldest_here none os o m e =
      let (b, eq, le) = oldest_some (if ltb m max_int64 then m else max_int64) os in
      (b, rw (e, oldest_output) eq, ground arith)
  oldest_here (some best) os o m e =
      let (b, eq, le) = oldest_some (if ltb m best then m else best) os in
      (b, rw (e, oldest_output) eq, ground arith)

  oldest_bound :
      (best : Option ℕ) (os : List Str) (o : Str) (m : ℕ)
      → Memᴰ o os
      → stat_mtime env o ≡ some m
      → (b : ℕ) × (oldest_output env best os ≡ some b) × (b ≤ m)
  unfolding oldest_output
  oldest_bound best [] o m k e = absurd (Memᴰ.not-nil k)
  oldest_bound best (q ∷ os) o m k e = elim (Memᴰ.cases_cons k) [
    | inr more ↦ oldest_bound (sooner env (stat_mtime env q) best) os o m more e
    | inl same ↦ oldest_here best os q m (ap (stat_mtime env) (sym same) ∙ e)
  ]

  eff-NoneOlder :
      {t : Ref} {r : Resolved} → Resolves env t r → r.will_run ≡ false → NoneOlder t r.eff
  unfolding finish
  eff-NoneOlder (resolves t out scans) idle o m k e =
      let (b, eq, le) = oldest_bound none (target_of env t).outputs o m k e in ground arith

  record Quiet (acc : Scan) (ps : List Str) (out : Scan) : Type 0 where
    calm : acc.rebuilt ≡ false
    grows : acc.newest ≤ out.newest
    settled : (p : Str) → Memᴰ p ps → Settled out.newest p

  after_rule_quiet :
      (acc : Scan) (r : Resolved)
      → (after_rule acc r).rebuilt ≡ false
      → (acc.rebuilt ≡ false)
        × (r.will_run ≡ false)
        × (acc.newest ≤ (after_rule acc r).newest)
        × (r.eff ≤ (after_rule acc r).newest)
  unfolding after_rule
  after_rule_quiet acc r h = ground arith

  after_file_quiet :
      (outs : List Str) (acc acc' : Scan) (p : Str)
      → after_file env outs acc p ≡ ok acc'
      → acc'.rebuilt ≡ false
      → (m : ℕ) × (stat_mtime env p ≡ some m)
        × (acc.rebuilt ≡ false)
        × (acc.newest ≤ acc'.newest)
        × (m ≤ acc'.newest)
  unfolding after_file
  after_file_quiet outs acc acc' p e h = elim (Option-cases (stat_mtime env p)) [
    | inl off ↦ absurd (ground arith)
    | inr (m, on) ↦ (m, on, ground arith, ground arith, ground arith)
  ]

  Scans-Quiet :
      {outs : List Str} {acc : Scan} {ps : List Str} {out : Scan}
      → Scans env outs acc ps out
      → out.rebuilt ≡ false
      → Quiet acc ps out
  Scans-Quiet (stop outs acc) h = record {
    calm = h;
    grows = omega arith;
    settled = λ p m. absurd (Memᴰ.not-nil m);
  }
  Scans-Quiet (made outs acc p ps out c r choice sub rest) h =
      let q = Scans-Quiet rest h in
      let (calm, idle, more, bound) = after_rule_quiet acc r q.calm in
      record {
        calm = calm;
        grows = omega (arith, q.grows);
        settled = λ v m.
            ⊎_elim
              (λ e.
                subst (Settled out.newest) (sym e)
                  (by_target c r choice sub idle (eff-NoneOlder sub idle) (omega (arith, q.grows))))
              (q.settled v) (Memᴰ.cases_cons m);
      }
  Scans-Quiet (found outs acc p ps out acc' choice e rest) h =
      let q = Scans-Quiet rest h in
      let (m, on, calm, more, bound) = after_file_quiet outs acc acc' p e q.calm in
      record {
        calm = calm;
        grows = omega (arith, q.grows);
        settled = λ v k.
            ⊎_elim
              (λ e'.
                subst (Settled out.newest) (sym e') (by_file m choice on (omega (arith, q.grows))))
              (q.settled v) (Memᴰ.cases_cons k);
      }

  no_lack :
      (t : Target) (os : List Str) (o : Str)
      → lacks_output env t os ≡ false
      → Memᴰ o os
      → (is_temp t o ≡ true) ⊎ (stat_exists env o ≡ true)
  unfolding lacks_output
  no_lack t [] o h m = absurd (Memᴰ.not-nil m)
  no_lack t (q ∷ os) o h m = elim (Memᴰ.cases_cons m) [
    | inl e ↦ rw e (ground arith)
    | inr more ↦ no_lack t os o (ground arith) more
  ]

  none_older :
      (newest : ℕ) (os : List Str) (o : Str) (m : ℕ)
      → has_older_output env newest os ≡ false
      → Memᴰ o os
      → stat_mtime env o ≡ some m
      → newest ≤ m
  unfolding has_older_output
  none_older newest [] o m h k e = absurd (Memᴰ.not-nil k)
  none_older newest (q ∷ os) o m h k e = elim (Memᴰ.cases_cons k) [
    | inl same ↦
        let there : stat_mtime env q ≡ some m = ap (stat_mtime env) (sym same) ∙ e in ground arith
    | inr more ↦ none_older newest os o m (ground arith) more e
  ]

  -- A target that need not run, and the time that stands for it.
  pub record IsUpToDate (t : Ref) (eff : ℕ) : Type 0 where
    pub newest : ℕ
    pub inputs : (p : Str) → Memᴰ p (target_of env t).inputs → Settled newest p
    pub outputs :
        (o : Str)
        → Memᴰ o (target_of env t).outputs
        → (is_temp (target_of env t) o ≡ true) ⊎ (stat_exists env o ≡ true)
    pub not_older : NoneOlder t newest
    -- the time that dependents compare their outputs with
    pub oldest : NoneOlder t eff
    pub not_forced : env.force ≡ false

  pub Resolves-IsUpToDate :
      {t : Ref} {r : Resolved} → Resolves env t r → r.will_run ≡ false → IsUpToDate t r.eff
  unfolding finish must_run
  Resolves-IsUpToDate (resolves t out scans) idle =
      let calm : out.rebuilt ≡ false = ground arith in
      let whole : lacks_output env (target_of env t) (target_of env t).outputs ≡ false =
        ground arith in
      let young : has_older_output env out.newest (target_of env t).outputs ≡ false =
        ground arith in
      record {
        newest = out.newest;
        inputs = (Scans-Quiet scans calm).settled;
        outputs = λ o m. no_lack (target_of env t) _ o whole m;
        not_older = λ o m k e. none_older out.newest _ o m young k e;
        oldest = eff-NoneOlder (resolves t out scans) idle;
        not_forced = ground arith;
      }
