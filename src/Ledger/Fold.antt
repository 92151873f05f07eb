-- ===== src/Ledger/Fold.antt =====
-- The folded view of ledger.go against the records that it is folded from.
use mathlib.Core.List.{Memᴰ, foldl, foldl-append}
use mathlib.Core.List.Memᴰ
use mathlib.Core.Logic.{⊎_elim}
use cgpipe.Prelude.{
  List, [], ◌∷◌, ◌++◌, Bool, true, false, ◌≡◌, ◌⊎◌, ◌↔◌, inl, inr, refl, sym, ap, ◌∙◌, subst,
  list_eq, nat_eq, eq_iff, ◌==◌, if◌then◌else◌, arith, Option, none, some, Bool-cases, Option-cases,
  contains,
}
use cgpipe.Prelude.Assoc.{lookup, lookup-insert, lookup-nil}
use cgpipe.Text.{Str}
use cgpipe.Ledger.{
  Job, LogRecord, Entry, State, empty_state, after, supersedes, claim, claim_all, apply,
  fold_records, fold_file, load, named, owner_of,
}
use cgpipe.Ledger.Order.{after_irrefl, after_trans, after_total}

-- The later of an entry and what was there.
abbrev pub merge : {A : Type 0} → Entry A → Option (Entry A) → Option (Entry A)
merge e old = if supersedes e.ord old then some e else old

lookup-claim :
    {A : Type 0} (k j : Str) (e : Entry A) (m : List (Str × Entry A))
    → lookup j (claim k e m) ≡ (if k == j then merge e (lookup j m) else lookup j m)
unfolding claim
lookup-claim k j e m = ground (arith, lookup-insert k j e m, eq_iff k j)

merge_idem :
    {A : Type 0} (e : Entry A) (old : Option (Entry A)) → merge e (merge e old) ≡ merge e old
merge_idem e none = rw (after_irrefl e.ord)
merge_idem e (some x) = ground (arith, after_irrefl e.ord)

lookup-claim_all :
    (ps : List Str) (p : Str) (e : Entry Str) (m : List (Str × Entry Str))
    → lookup p (claim_all ps e m) ≡ (if contains ps p then merge e (lookup p m) else lookup p m)
unfolding claim_all
lookup-claim_all [] p e m = refl
lookup-claim_all (q ∷ ps) p e m =
    ground (
      arith,
      lookup-claim_all ps p e (claim q e m),
      lookup-claim q p e m,
      merge_idem e (lookup p m),
    )

-- What a record says of one job id, and of one path.
unfoldable pub job_claim : Str → LogRecord → Option (Entry Job)
job_claim id r = if r.job.job_id == id then some (record { value = r.job; ord = r.ord }) else none

unfoldable pub owner_claim : Str → LogRecord → Option (Entry Str)
owner_claim p r =
    if contains r.job.outputs p then some (record { value = r.job.job_id; ord = r.ord }) else none

abbrev step_entry : {A : Type 0} → Option (Entry A) → Option (Entry A) → Option (Entry A)
step_entry x none = x
step_entry x (some e) = merge e x

module _ {A : Type 0} (f : LogRecord → Option (Entry A)) where
  abbrev step : Option (Entry A) → LogRecord → Option (Entry A)
  step x r = step_entry x (f r)

  -- The entry is what some record of the collection says, and no record says a later one; there is
  -- none where no record says any.
  abbrev pub IsLatest : (LogRecord → Type 0) → Option (Entry A) → Type 0
  IsLatest In none = (r : LogRecord) → In r → f r ≡ none
  IsLatest In (some e) =
      ((r : LogRecord) × In r × (f r ≡ some e))
      × ((r : LogRecord) (x : Entry A) → In r → f r ≡ some x → after x.ord e.ord ≡ false)

  add_silent :
      (In : LogRecord → Type 0) (x : Option (Entry A)) (r : LogRecord)
      → f r ≡ none
      → IsLatest In x
      → IsLatest (λ s. In s ⊎ (s ≡ r)) x
  add_silent In none r e h = λ s m. ⊎_elim (h s) (λ same. rw same e) m
  add_silent In (some x) r e h = (
    (h.0.0, inl h.0.1, h.0.2),
    λ s y m q. ⊎_elim (λ old. h.1 s y old q) (λ same. cc (same, e, q)) m,
  )

  -- A later entry takes over; an entry that is not later changes nothing.
  add_entry :
      (In : LogRecord → Type 0) (x : Option (Entry A)) (r : LogRecord) (e : Entry A)
      → f r ≡ some e
      → IsLatest In x
      → IsLatest (λ s. In s ⊎ (s ≡ r)) (merge e x)
  add_entry In none r e q h = (
    (r, inr refl, q),
    λ s y m k.
        ⊎_elim (λ old. cc (h s old, k))
          (λ same.
            let alike : some y ≡ some e = sym k ∙ (ap f same ∙ q) in
            let equal : y ≡ e = cc alike in rw equal (after_irrefl e.ord))
          m,
  )
  add_entry In (some x) r e q h = elim (Bool-cases (after e.ord x.ord)) [
    | inl wins ↦ rw wins (
      (r, inr refl, q),
      λ s y m k.
          ⊎_elim (λ old. beaten y x e (h.1 s y old k) wins)
            (λ same.
              let alike : some y ≡ some e = sym k ∙ (ap f same ∙ q) in
              let equal : y ≡ e = cc alike in rw equal (after_irrefl e.ord))
            m,
    )
    | inr loses ↦ rw loses (
      (h.0.0, inl h.0.1, h.0.2),
      λ s y m k.
          ⊎_elim (λ old. h.1 s y old k)
            (λ same.
              let alike : some y ≡ some e = sym k ∙ (ap f same ∙ q) in
              let equal : y ≡ e = cc alike in rw equal loses)
            m,
    )
  ]
    where
      beaten :
          (y x e : Entry A)
          → after y.ord x.ord ≡ false
          → after e.ord x.ord ≡ true
          → after y.ord e.ord ≡ false
      beaten y x e h k = elim (Bool-cases (after y.ord e.ord)) [
        | inl late ↦ cc (after_trans y.ord e.ord x.ord late k, h)
        | inr done ↦ done
      ]

  step-IsLatest :
      (In : LogRecord → Type 0) (x : Option (Entry A)) (r : LogRecord)
      → IsLatest In x
      → IsLatest (λ s. In s ⊎ (s ≡ r)) (step x r)
  step-IsLatest In x r h = elim (Option-cases (f r)) [
    | inl e ↦ rw e (add_silent In x r e h)
    | inr (y, e) ↦ rw e (add_entry In x r y e h)
  ]

  IsLatest-map :
      (In In' : LogRecord → Type 0) (x : Option (Entry A))
      → ((r : LogRecord) → In r ↔ In' r)
      → IsLatest In x
      → IsLatest In' x
  IsLatest-map In In' none e h = λ r m. h r ((e r).1 m)
  IsLatest-map In In' (some x) e h =
      ((h.0.0, (e h.0.0).0 h.0.1, h.0.2), λ r y m. h.1 r y ((e r).1 m))

  fold-IsLatest :
      (In : LogRecord → Type 0) (x : Option (Entry A)) (rs : List LogRecord)
      → IsLatest In x
      → IsLatest (λ s. In s ⊎ Memᴰ s rs) (foldl step x rs)
  fold-IsLatest In x [] h =
      IsLatest-map In (λ s. In s ⊎ Memᴰ s []) x
        (λ s. (inl, ⊎_elim (λ m. m) (λ m. absurd (Memᴰ.not-nil m)))) h
  fold-IsLatest In x (r ∷ rs) h =
      IsLatest-map (λ s. (In s ⊎ (s ≡ r)) ⊎ Memᴰ s rs) (λ s. In s ⊎ Memᴰ s (r ∷ rs))
        (foldl step (step x r) rs)
        (λ s. (
          ⊎_elim (⊎_elim inl (λ e. inr (Memᴰ.head e))) (λ m. inr (Memᴰ.tail m)),
          ⊎_elim (λ m. inl (inl m)) (λ m. ⊎_elim (λ e. inl (inr e)) inr (Memᴰ.cases_cons m)),
        ))
        (fold-IsLatest (λ s. In s ⊎ (s ≡ r)) (step x r) rs (step-IsLatest In x r h))

  pub fold-IsLatest' : (rs : List LogRecord) → IsLatest (λ s. Memᴰ s rs) (foldl step none rs)
  fold-IsLatest' rs =
      IsLatest-map (λ s. ⊥ ⊎ Memᴰ s rs) (λ s. Memᴰ s rs) (foldl step none rs)
        (λ s. (⊎_elim (λ m. absurd m) (λ m. m), inr))
        (fold-IsLatest (λ _. ⊥) none rs (λ r m. absurd m))

-- A record is told apart by its key: each writer counts its records.
abbrev pub AreDistinct : (LogRecord → Type 0) → Type 0
AreDistinct In = (r s : LogRecord) → In r → In s → r.ord ≡ s.ord → r ≡ s

abbrev pub KeepsOrd : {A : Type 0} → (LogRecord → Option (Entry A)) → Type 0
KeepsOrd {A} f = (r : LogRecord) (e : Entry A) → f r ≡ some e → e.ord ≡ r.ord

pub latest_unique :
    {A : Type 0} (f : LogRecord → Option (Entry A)) (In : LogRecord → Type 0)
    (x y : Option (Entry A))
    → KeepsOrd f
    → AreDistinct In
    → IsLatest f In x
    → IsLatest f In y
    → x ≡ y
latest_unique f In none none ord one h k = refl
latest_unique f In none (some e) ord one h k = cc (h k.0.0 k.0.1, k.0.2)
latest_unique f In (some e) none ord one h k = cc (k h.0.0 h.0.1, h.0.2)
latest_unique f In (some d) (some e) ord one h k =
    let first = h.1 k.0.0 e k.0.1 k.0.2 in
    let second = k.1 h.0.0 d h.0.1 h.0.2 in
    let keys : d.ord ≡ e.ord =
      ⊎_elim (λ same. same)
        (⊎_elim (λ late. absurd (cc (late, second))) (λ late. absurd (cc (late, first))))
        (after_total d.ord e.ord) in
    let same : h.0.0 ≡ k.0.0 =
      one h.0.0 k.0.0 h.0.1 k.0.1 (sym (ord h.0.0 d h.0.2) ∙ (keys ∙ ord k.0.0 e k.0.2)) in
    sym h.0.2 ∙ (ap f same ∙ k.0.2)

pub job_claim-ord : (id : Str) → KeepsOrd (job_claim id)
unfolding job_claim
job_claim-ord id r e h = ground arith

pub owner_claim-ord : (p : Str) → KeepsOrd (owner_claim p)
unfolding owner_claim
owner_claim-ord p r e h = ground arith

merge_if :
    {A : Type 0} (b : Bool) (e : Entry A) (x : Option (Entry A))
    → (if b then merge e x else x) ≡ step_entry x (if b then some e else none)
merge_if true e x = refl
merge_if false e x = refl

fold_jobs :
    (id : Str) (st : State) (rs : List LogRecord)
    → lookup id (fold_records st rs).jobs ≡ foldl (step (job_claim id)) (lookup id st.jobs) rs
unfolding fold_records apply job_claim
fold_jobs id st [] = refl
fold_jobs id st (r ∷ rs) =
    fold_jobs id (apply st r) rs
    ∙ ap (λ x. foldl (step (job_claim id)) x rs)
        (lookup-claim r.job.job_id id (record { value = r.job; ord = r.ord }) st.jobs
          ∙ merge_if (r.job.job_id == id) _ (lookup id st.jobs))

fold_owner :
    (p : Str) (st : State) (rs : List LogRecord)
    → lookup p (fold_records st rs).owner ≡ foldl (step (owner_claim p)) (lookup p st.owner) rs
unfolding fold_records apply owner_claim
fold_owner p st [] = refl
fold_owner p st (r ∷ rs) =
    fold_owner p (apply st r) rs
    ∙ ap (λ x. foldl (step (owner_claim p)) x rs)
        (lookup-claim_all r.job.outputs p (record { value = r.job.job_id; ord = r.ord }) st.owner
          ∙ merge_if (contains r.job.outputs p) _ (lookup p st.owner))

abbrev pub Recorded : List LogRecord → LogRecord → Type 0
Recorded rs r = Memᴰ r rs

-- The view holds the latest record of each job, and none of a job that no record is of.
pub jobs-IsLatest :
    (rs : List LogRecord) (id : Str)
    → IsLatest (job_claim id) (Recorded rs) (lookup id (fold_records empty_state rs).jobs)
jobs-IsLatest rs id =
    subst (IsLatest (job_claim id) (Recorded rs))
      (sym
        (fold_jobs id empty_state rs ∙ ap (λ x. foldl (step (job_claim id)) x rs) (lookup-nil id)))
      (fold-IsLatest' (job_claim id) rs)

-- The view names, for each path, the job of the latest record that lists it among its outputs, and
-- none where no record does.
pub owner-IsLatest :
    (rs : List LogRecord) (p : Str)
    → IsLatest (owner_claim p) (Recorded rs) (lookup p (fold_records empty_state rs).owner)
owner-IsLatest rs p =
    subst (IsLatest (owner_claim p) (Recorded rs))
      (sym
        (fold_owner p empty_state rs ∙ ap (λ x. foldl (step (owner_claim p)) x rs) (lookup-nil p)))
      (fold-IsLatest' (owner_claim p) rs)

-- The records of the files, in the order in which they are read.
unfoldable pub records_of_file : List (Option LogRecord) → List LogRecord
records_of_file [] = []
records_of_file (none ∷ lines) = records_of_file lines
records_of_file (some r ∷ lines) = r ∷ records_of_file lines

unfoldable pub records_of : List (List (Option LogRecord)) → List LogRecord
records_of [] = []
records_of (file ∷ files) = records_of_file file ++ records_of files

fold_file-records :
    (st : State) (lines : List (Option LogRecord))
    → fold_file st lines ≡ fold_records st (records_of_file lines)
unfolding fold_file fold_records records_of_file
fold_file-records st [] = refl
fold_file-records st (none ∷ lines) = fold_file-records st lines
fold_file-records st (some r ∷ lines) = fold_file-records (apply st r) lines

fold_files-records :
    (st : State) (files : List (List (Option LogRecord)))
    → foldl fold_file st files ≡ fold_records st (records_of files)
unfolding fold_records records_of
fold_files-records st [] = refl
fold_files-records st (file ∷ files) =
    fold_files-records (fold_file st file) files
    ∙ (ap (λ s. fold_records s (records_of files)) (fold_file-records st file)
        ∙ sym (foldl-append apply st (records_of_file file) (records_of files)))

-- A malformed line is skipped, and the rest of the files is read.
pub load-records :
    (files : List (List (Option LogRecord)))
    → load files ≡ fold_records empty_state (records_of files)
unfolding load
load-records files = fold_files-records empty_state files

-- Two directories with the same records show the same jobs and the same owners, in whatever order
-- and however often the records stand in the files, given that two records with one key are one.
pub load_order :
    (files files' : List (List (Option LogRecord)))
    → ((r : LogRecord) → Memᴰ r (records_of files) ↔ Memᴰ r (records_of files'))
    → AreDistinct (Recorded (records_of files))
    → ((id : Str) → lookup id (load files).jobs ≡ lookup id (load files').jobs)
      × ((p : Str) → owner_of (load files) p ≡ owner_of (load files') p)
unfolding owner_of
load_order files files' same one =
    let rs = records_of files in
    let rs' = records_of files' in
    rw (load-records files, load-records files')
      (
        λ id.
            latest_unique (job_claim id) (Recorded rs) _ _ (job_claim-ord id) one
              (jobs-IsLatest rs id)
              (IsLatest-map (job_claim id) (Recorded rs') (Recorded rs) _
                (λ r. ((same r).1, (same r).0)) (jobs-IsLatest rs' id)),
        λ p. ap named (
            latest_unique (owner_claim p) (Recorded rs) _ _ (owner_claim-ord p) one
              (owner-IsLatest rs p)
              (IsLatest-map (owner_claim p) (Recorded rs') (Recorded rs) _
                (λ r. ((same r).1, (same r).0)) (owner-IsLatest rs' p))),
      )
