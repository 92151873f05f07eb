-- ===== src/Ledger/Vacuum/Owners.antt =====
-- The owners of paths before and after Vacuum of ledger.go.
use mathlib.Core.List.{Memᴰ}
use mathlib.Core.List.Memᴰ
use mathlib.Core.Logic.{⊎_elim}
use cgpipe.Prelude.{
  List, [], ◌∷◌, map, Bool, true, not, ◌&&◌, ◌≡◌, ◌⊎◌, ◌↔◌, inl, inr, refl, sym, ap, ◌∙◌, subst,
  list_eq, nat_eq, eq_iff, eq_self, ◌==◌, arith, Option, none, some, Bool-cases, contains,
  contains_iff,
}
use cgpipe.Prelude.Assoc.{lookup, lookup_mem}
use cgpipe.Text.{Str}
use cgpipe.Ledger.{Job, LogRecord, Entry, State, load, owner_of, named}
use cgpipe.Ledger.Fold.{
  IsLatest, AreDistinct, Recorded, job_claim, owner_claim, owner_claim-ord, latest_unique,
  jobs-IsLatest, owner-IsLatest, records_of, records_of_file, load-records,
}
use cgpipe.Ledger.Vacuum.{
  Dir, files_of, live_ids, filter_live, insert_id, sort_ids, less_id, snapshot_of, keep_logs,
  vacuum, entry_line,
}

mem-insert_id :
    (less : Str → Str → Bool) (id j : Str) (ids : List Str)
    → Memᴰ j (insert_id less id ids) ↔ ((j ≡ id) ⊎ Memᴰ j ids)
unfolding insert_id
mem-insert_id less id j [] = (Memᴰ.cases_cons, ⊎_elim Memᴰ.head Memᴰ.tail)
mem-insert_id less id j (k ∷ ids) =
    let ih = mem-insert_id less id j ids in
    elim (Bool-cases (less k id)) [
      | inl e ↦ rw e (
        λ m.
            ⊎_elim (λ h. inr (Memᴰ.head h)) (λ t. ⊎_elim inl (λ u. inr (Memᴰ.tail u)) (ih.0 t))
              (Memᴰ.cases_cons m),
        ⊎_elim (λ h. Memᴰ.tail (ih.1 (inl h)))
            (λ m. ⊎_elim Memᴰ.head (λ t. Memᴰ.tail (ih.1 (inr t))) (Memᴰ.cases_cons m)),
      )
      | inr e ↦ rw e (Memᴰ.cases_cons, ⊎_elim Memᴰ.head Memᴰ.tail)
    ]

mem-sort_ids :
    (less : Str → Str → Bool) (j : Str) (ids : List Str) → Memᴰ j (sort_ids less ids) ↔ Memᴰ j ids
unfolding sort_ids
mem-sort_ids less j [] = (λ m. m, λ m. m)
mem-sort_ids less j (id ∷ ids) =
    let put = mem-insert_id less id j (sort_ids less ids) in
    let ih = mem-sort_ids less j ids in
    (
      λ m. ⊎_elim Memᴰ.head (λ t. Memᴰ.tail (ih.0 t)) (put.0 m),
      λ m. put.1 (⊎_elim inl (λ t. inr (ih.1 t)) (Memᴰ.cases_cons m)),
    )

mem-filter_live :
    (live : List Str) (id : Str) (e : Entry Job) (jobs : List (Str × Entry Job))
    → Memᴰ (id, e) jobs
    → contains live id ≡ true
    → Memᴰ id (filter_live live jobs)
unfolding filter_live
mem-filter_live live id e [] m h = absurd (Memᴰ.not-nil m)
mem-filter_live live id e ((j, x) ∷ jobs) m h = elim (Memᴰ.cases_cons m) [
  | inl same ↦ let key : id ≡ j = ap (λ q. q.0) same in rw (← key, h) (Memᴰ.head refl)
  | inr more ↦ elim (Bool-cases (contains live j)) [
    | inl on ↦ rw on (Memᴰ.tail (mem-filter_live live id e jobs more h))
    | inr off ↦ rw off (mem-filter_live live id e jobs more h)
  ]
]

-- The records of a file are its good lines.
mem-records_of_file :
    (r : LogRecord) (lines : List (Option LogRecord))
    → Memᴰ r (records_of_file lines) ↔ Memᴰ (some r) lines
unfolding records_of_file
mem-records_of_file r [] = (λ m. absurd (Memᴰ.not-nil m), λ m. absurd (Memᴰ.not-nil m))
mem-records_of_file r (none ∷ lines) =
    let ih = mem-records_of_file r lines in
    (λ m. Memᴰ.tail (ih.0 m), λ m. ⊎_elim (λ e. cc) ih.1 (Memᴰ.cases_cons m))
mem-records_of_file r (some s ∷ lines) =
    let ih = mem-records_of_file r lines in
    (
      λ m. ⊎_elim (λ e. Memᴰ.head (ap some e)) (λ t. Memᴰ.tail (ih.0 t)) (Memᴰ.cases_cons m),
      λ m. ⊎_elim (λ e. Memᴰ.head (cc)) (λ t. Memᴰ.tail (ih.1 t)) (Memᴰ.cases_cons m),
    )

mem-records_of_logs :
    (r : LogRecord) (live_local : Str → Bool) (own : Str)
    (logs : List (Str × List (Option LogRecord)))
    → Memᴰ r (records_of (map (λ l. l.1) (keep_logs live_local own logs)))
    → Memᴰ r (records_of (map (λ l. l.1) logs))
unfolding keep_logs records_of
mem-records_of_logs r live_local own [] m = m
mem-records_of_logs r live_local own ((name, lines) ∷ logs) m =
    let ih = mem-records_of_logs r live_local own logs in
    elim (Bool-cases (live_local name && not (name == own))) [
      | inl on ↦
          ⊎_elim (λ here. Memᴰ.append_left _ here)
            (λ there. Memᴰ.append_right (records_of_file lines) (ih there))
            (Memᴰ.append_cases (records_of_file lines) (rw (on, keep_logs, records_of) at m))
      | inr off ↦ Memᴰ.append_right (records_of_file lines) (ih (rw (off, keep_logs) at m))
    ]

abbrev record_of : Entry Job → LogRecord
record_of e = record { ord = e.ord; job = e.value }

claimed_record :
    (id : Str) (r : LogRecord) (e : Entry Job)
    → job_claim id r ≡ some e
    → (record_of e ≡ r) × (r.job.job_id ≡ id)
unfolding job_claim
claimed_record id r e h = ground (arith, eq_iff r.job.job_id id)

module _ (live_local : Str → Bool) (own : Str) (d : Dir) where
  abbrev before : List LogRecord
  before = records_of (files_of d)

  abbrev after_vacuum : List LogRecord
  after_vacuum = records_of (files_of (vacuum live_local own d))

  abbrev st : State
  st = load (files_of d)

  job-IsLatest : (id : Str) → IsLatest (job_claim id) (Recorded before) (lookup id st.jobs)
  job-IsLatest id =
      subst (λ (s : State). IsLatest (job_claim id) (Recorded before) (lookup id s.jobs))
        (sym (load-records (files_of d))) (jobs-IsLatest before id)

  path-IsLatest : (p : Str) → IsLatest (owner_claim p) (Recorded before) (lookup p st.owner)
  path-IsLatest p =
      subst (λ (s : State). IsLatest (owner_claim p) (Recorded before) (lookup p s.owner))
        (sym (load-records (files_of d))) (owner-IsLatest before p)

  line_recorded :
      (id : Str) (r : LogRecord) (x : Option (Entry Job))
      → IsLatest (job_claim id) (Recorded before) x
      → some r ≡ entry_line x
      → Memᴰ r before
  line_recorded id r none h e = cc
  line_recorded id r (some x) h e =
      let from = (claimed_record id h.0.0 x h.0.2).0 in
      let same : h.0.0 ≡ r = sym from ∙ sym (cc e) in subst (λ v. Memᴰ v before) same h.0.1

  -- A vacuum invents no record.
  vacuum_within : (r : LogRecord) → Memᴰ r after_vacuum → Memᴰ r before
  unfolding vacuum records_of snapshot_of
  vacuum_within r m =
      ⊎_elim
        (λ here.
          let (id, _, e) =
            Memᴰ.of_map (λ id. entry_line (lookup id st.jobs)) _
              ((mem-records_of_file r (snapshot_of st)).0 here) in
          line_recorded id r (lookup id st.jobs) (job-IsLatest id) (sym e))
        (λ there.
          Memᴰ.append_right (records_of_file d.snapshot)
            (mem-records_of_logs r live_local own d.logs there))
        (Memᴰ.append_cases (records_of_file (snapshot_of st)) m)

  -- No job was recorded twice.
  abbrev pub IsRecordedOnce : Type 0
  IsRecordedOnce =
      (r s : LogRecord) → Memᴰ r before → Memᴰ s before → r.job.job_id ≡ s.job.job_id → r ≡ s

  owner_claimed :
      (p : Str) (r : LogRecord) (e : Entry Str) → owner_claim p r ≡ some e → e.value ≡ r.job.job_id
  unfolding owner_claim
  owner_claimed p r e h = ground arith

  job_kept :
      (once : IsRecordedOnce) (r : LogRecord) (x : Option (Entry Job))
      → IsLatest (job_claim r.job.job_id) (Recorded before) x
      → Memᴰ r before
      → x ≡ some (record { value = r.job; ord = r.ord })
  unfolding job_claim
  job_kept once r none h m = cc (h r m, eq_self r.job.job_id)
  job_kept once r (some x) h m =
      let (from, id) = claimed_record r.job.job_id h.0.0 x h.0.2 in
      let same = once h.0.0 r h.0.1 m id in
      let whole : record_of x ≡ r = from ∙ same in
      ap (λ (v : LogRecord). some (record { value = v.job; ord = v.ord })) whole

  -- The record that makes a job the owner of a path goes into the snapshot.
  owner_kept :
      (once : IsRecordedOnce) (p : Str) (r : LogRecord) (e : Entry Str)
      → Memᴰ r before
      → owner_claim p r ≡ some e
      → lookup p st.owner ≡ some e
      → Memᴰ r after_vacuum
  unfolding vacuum records_of snapshot_of live_ids
  owner_kept once p r e m claimed owns =
      let id = r.job.job_id in
      let job = job_kept once r (lookup id st.jobs) (job-IsLatest id) m in
      let owner : Memᴰ id (live_ids st) =
        subst (λ v. Memᴰ v (live_ids st)) (owner_claimed p r e claimed)
          (Memᴰ.map (λ (o : Str × Entry Str). o.1.value) (lookup_mem p e st.owner owns)) in
      let listed = (mem-sort_ids (less_id st) id (filter_live (live_ids st) st.jobs)).1 (
        mem-filter_live (live_ids st) id _ st.jobs (lookup_mem id _ st.jobs job)
          ((contains_iff (live_ids st) id).1 owner)) in
      let line = Memᴰ.map (λ i. entry_line (lookup i st.jobs)) listed in
      Memᴰ.append_left _ (
        (mem-records_of_file r (snapshot_of st)).1
          (subst (λ v. Memᴰ v (snapshot_of st)) (ap entry_line job) line))

  still-IsLatest :
      (once : IsRecordedOnce) (p : Str) (x : Option (Entry Str))
      → lookup p st.owner ≡ x
      → IsLatest (owner_claim p) (Recorded before) x
      → IsLatest (owner_claim p) (Recorded after_vacuum) x
  still-IsLatest once p none e h = λ r m. h r (vacuum_within r m)
  still-IsLatest once p (some x) e h = (
    (h.0.0, owner_kept once p h.0.0 x h.0.1 h.0.2 e, h.0.2),
    λ r y m. h.1 r y (vacuum_within r m),
  )

  -- Where no job was recorded twice and two records with one key are one, every path has after a
  -- vacuum the owner that it had before, whichever logs of live processes stay.
  pub owner_of-vacuum :
      IsRecordedOnce
      → AreDistinct (Recorded before)
      → (p : Str) → owner_of (load (files_of (vacuum live_local own d))) p ≡ owner_of st p
  unfolding owner_of
  owner_of-vacuum once one p = ap named (
      latest_unique (owner_claim p) (Recorded after_vacuum) _ _ (owner_claim-ord p)
        (λ r s m n. one r s (vacuum_within r m) (vacuum_within s n))
        (subst (λ (s : State). IsLatest (owner_claim p) (Recorded after_vacuum) (lookup p s.owner))
          (sym (load-records (files_of (vacuum live_local own d)))) (owner-IsLatest after_vacuum p))
        (still-IsLatest once p (lookup p st.owner) refl (path-IsLatest p)))
