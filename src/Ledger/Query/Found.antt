-- ===== src/Ledger/Query/Found.antt =====
-- What Search of ledger.go finds.
use mathlib.Core.List.{Memᴰ}
use mathlib.Core.List.Memᴰ
use mathlib.Core.List.{Permᴰ}
use mathlib.Core.List.Permᴰ
use mathlib.Core.Logic.{⊎_elim}
use cgpipe.Prelude.{
  ◌<◌, List, [], ◌∷◌, ◌++◌, map, true, false, list_eq, ◌≡◌, ◌↔◌, ◌⊎◌, refl, sym, ap, subst, inl,
  inr, Bool-cases, arith, nat_eq,
}
use cgpipe.Text.{Str}
use cgpipe.Ledger.{Job, Entry, State, text_gt}
use cgpipe.Ledger.Order.{text_gt_irrefl, text_gt_trans, text_gt_total}
use cgpipe.Ledger.Vacuum.{less_job}
use cgpipe.Ledger.Query.Meant.{IsMeant, selects_iff}
use cgpipe.Ledger.Query.{Filter, insert_job, sort_jobs, sorted_jobs, selects, search_jobs, search}

mem-insert_job : (j k : Job) (ks : List Job) → Memᴰ j (insert_job k ks) ↔ Memᴰ j (k ∷ ks)
unfolding insert_job
mem-insert_job j k [] = (λ m. m, λ m. m)
mem-insert_job j k (x ∷ ks) = elim (Bool-cases (less_job x k)) [
  | inr e ↦ rw e (λ m. m, λ m. m)
  | inl e ↦
      let ih = mem-insert_job j k ks in
      rw e (
        λ m.
            ⊎_elim (λ same. Memᴰ.tail (Memᴰ.head same))
              (λ more.
                ⊎_elim (λ same. Memᴰ.head same) (λ deep. Memᴰ.tail (Memᴰ.tail deep))
                  (Memᴰ.cases_cons (ih.0 more)))
              (Memᴰ.cases_cons m),
        λ m.
            ⊎_elim (λ same. Memᴰ.tail (ih.1 (Memᴰ.head same)))
              (λ more.
                ⊎_elim (λ same. Memᴰ.head same) (λ deep. Memᴰ.tail (ih.1 (Memᴰ.tail deep)))
                  (Memᴰ.cases_cons more))
              (Memᴰ.cases_cons m),
      )
]

mem-sort_jobs : (j : Job) (js : List Job) → Memᴰ j (sort_jobs js) ↔ Memᴰ j js
unfolding sort_jobs
mem-sort_jobs j [] = (λ m. m, λ m. m)
mem-sort_jobs j (k ∷ js) =
    let ih = mem-sort_jobs j js in
    let front = mem-insert_job j k (sort_jobs js) in
    (
      λ m. ⊎_elim Memᴰ.head (λ more. Memᴰ.tail (ih.0 more)) (Memᴰ.cases_cons (front.0 m)),
      λ m. front.1 (⊎_elim Memᴰ.head (λ more. Memᴰ.tail (ih.1 more)) (Memᴰ.cases_cons m)),
    )

insert_job-parts : (k : Job) (ks : List Job) → Permᴰ (insert_job k ks) (k ∷ ks)
unfolding insert_job
insert_job-parts k [] = Permᴰ.refl (k ∷ [])
insert_job-parts k (x ∷ ks) = elim (Bool-cases (less_job x k)) [
  | inr e ↦ rw e (Permᴰ.refl (k ∷ (x ∷ ks)))
  | inl e ↦ rw e (Permᴰ.trans (Permᴰ.cons refl (insert_job-parts k ks)) (Permᴰ.swap refl refl))
]

sort_jobs-parts : (js : List Job) → Permᴰ (sort_jobs js) js
unfolding sort_jobs
sort_jobs-parts [] = Permᴰ.nil
sort_jobs-parts (j ∷ js) =
    Permᴰ.trans (insert_job-parts j (sort_jobs js)) (Permᴰ.cons refl (sort_jobs-parts js))

-- A job that does not stand behind another in an answer: it was submitted sooner, or at the same
-- time with an id that is not greater.
abbrev pub NotAfter : Job → Job → Type 0
NotAfter a b =
    (a.submit_time < b.submit_time)
    ⊎ ((a.submit_time ≡ b.submit_time) × (text_gt a.job_id b.job_id ≡ false))

abbrev pub IsOrdered : List Job → Type 0
IsOrdered [] = Unit
IsOrdered (j ∷ js) = ((k : Job) → Memᴰ k js → NotAfter j k) × IsOrdered js

NotAfter-less : (a b : Job) → less_job a b ≡ true → NotAfter a b
unfolding less_job
NotAfter-less a b h =
    ground (arith, text_gt_trans a.job_id b.job_id a.job_id, text_gt_irrefl a.job_id)

NotAfter-not_less : (a b : Job) → less_job a b ≡ false → NotAfter b a
unfolding less_job
NotAfter-not_less a b h = ground arith

NotAfter-trans : (a b c : Job) → NotAfter a b → NotAfter b c → NotAfter a c
NotAfter-trans a b c h k = ground (
  arith,
  text_gt_total a.job_id b.job_id,
  text_gt_total b.job_id c.job_id,
  text_gt_trans c.job_id b.job_id a.job_id,
  text_gt_trans a.job_id c.job_id b.job_id,
  text_gt_trans b.job_id a.job_id c.job_id,
)

insert_job-IsOrdered : (k : Job) (ks : List Job) → IsOrdered ks → IsOrdered (insert_job k ks)
unfolding insert_job
insert_job-IsOrdered k [] h = (λ j m. absurd (Memᴰ.not-nil m), tt)
insert_job-IsOrdered k (x ∷ ks) h = elim (Bool-cases (less_job x k)) [
  | inl e ↦ rw e (
    λ j m.
        ⊎_elim (λ same. subst (NotAfter x) (sym same) (NotAfter-less x k e)) (h.0 j)
          (Memᴰ.cases_cons ((mem-insert_job j k ks).0 m)),
    insert_job-IsOrdered k ks h.1,
  )
  | inr e ↦ rw e (
    λ j m.
        let here = NotAfter-not_less x k e in
        ⊎_elim (λ same. subst (NotAfter k) (sym same) here)
          (λ more. NotAfter-trans k x j here (h.0 j more)) (Memᴰ.cases_cons m),
    h,
  )
]

sort_jobs-IsOrdered : (js : List Job) → IsOrdered (sort_jobs js)
unfolding sort_jobs
sort_jobs-IsOrdered [] = tt
sort_jobs-IsOrdered (j ∷ js) = insert_job-IsOrdered j (sort_jobs js) (sort_jobs-IsOrdered js)

-- The ids of the jobs of the list that the filter means, in their order.
pub record IsAnswer (f : Filter) (js : List Job) (ids : List Str) : Type 0 where
  pub found : List Job
  pub listed : ids ≡ map (λ (j : Job). j.job_id) found
  pub exact : (j : Job) → Memᴰ j found ↔ (Memᴰ j js × IsMeant f j)
  -- with the jobs that are not meant, `found` is the list: none is found more often than it is there
  pub others : List Job
  pub passed : (j : Job) → Memᴰ j others → ¬ IsMeant f j
  pub parts : Permᴰ js (found ++ others)
  pub ordered : IsOrdered found

IsAnswer-with :
    (f : Filter) (k : Job) (js : List Job) (ids : List Str)
    → IsMeant f k
    → ((j : Job) → Memᴰ j js → NotAfter k j)
    → IsAnswer f js ids
    → IsAnswer f (k ∷ js) (k.job_id ∷ ids)
IsAnswer-with f k js ids meant first a = record {
  found = k ∷ a.found;
  listed = ap (λ rest. k.job_id ∷ rest) a.listed;
  exact = λ j. (
    λ m.
        ⊎_elim (λ same. (Memᴰ.head same, subst (IsMeant f) (sym same) meant))
          (λ more. let (there, fits) = (a.exact j).0 more in (Memᴰ.tail there, fits))
          (Memᴰ.cases_cons m),
    λ (there, fits).
        ⊎_elim Memᴰ.head (λ more. Memᴰ.tail ((a.exact j).1 (more, fits))) (Memᴰ.cases_cons there),
  );
  others = a.others;
  passed = a.passed;
  parts = Permᴰ.cons refl a.parts;
  ordered = (λ j m. first j ((a.exact j).0 m).0, a.ordered);
}

IsAnswer-without :
    (f : Filter) (k : Job) (js : List Job) (ids : List Str)
    → ¬ IsMeant f k
    → IsAnswer f js ids
    → IsAnswer f (k ∷ js) ids
IsAnswer-without f k js ids other a = record {
  found = a.found;
  listed = a.listed;
  exact = λ j. (
    λ m. let (there, fits) = (a.exact j).0 m in (Memᴰ.tail there, fits),
    λ (there, fits).
        ⊎_elim (λ same. absurd (other (subst (IsMeant f) same fits)))
          (λ more. (a.exact j).1 (more, fits)) (Memᴰ.cases_cons there),
  );
  others = k ∷ a.others;
  passed = λ j m.
      ⊎_elim (λ same. subst (λ x. ¬ IsMeant f x) (sym same) other) (a.passed j) (Memᴰ.cases_cons m);
  parts = Permᴰ.trans (Permᴰ.cons refl a.parts) (Permᴰ.symm (Permᴰ.middle k a.found a.others));
  ordered = a.ordered;
}

search_jobs-IsAnswer :
    (f : Filter) (js : List Job) → IsOrdered js → IsAnswer f js (search_jobs f js)
unfolding search_jobs
search_jobs-IsAnswer f [] h = record {
  found = [];
  listed = refl;
  exact = λ j. (λ m. absurd (Memᴰ.not-nil m), λ k. absurd (Memᴰ.not-nil k.0));
  others = [];
  passed = λ j m. absurd (Memᴰ.not-nil m);
  parts = Permᴰ.nil;
  ordered = tt;
}
search_jobs-IsAnswer f (k ∷ js) h =
    let rest = search_jobs-IsAnswer f js h.1 in
    elim (Bool-cases (selects f k)) [
      | inl on ↦ rw on (IsAnswer-with f k js _ ((selects_iff f k).0 on) h.0 rest)
      | inr off ↦ rw off (IsAnswer-without f k js _ (λ m. cc ((selects_iff f k).1 m, off)) rest)
    ]

IsAnswer-sorted :
    (f : Filter) (js : List Job) (ids : List Str)
    → IsAnswer f (sort_jobs js) ids
    → IsAnswer f js ids
IsAnswer-sorted f js ids a = record {
  found = a.found;
  listed = a.listed;
  exact = λ j. (
    λ m. let (there, fits) = (a.exact j).0 m in ((mem-sort_jobs j js).0 there, fits),
    λ (there, fits). (a.exact j).1 ((mem-sort_jobs j js).1 there, fits),
  );
  others = a.others;
  passed = a.passed;
  parts = Permᴰ.trans (Permᴰ.symm (sort_jobs-parts js)) a.parts;
  ordered = a.ordered;
}

-- Search answers with the ids of the jobs of the view that fit every field of the filter that is
-- not empty, each once for each time that the job is in the view, and of no others, the sooner
-- submitted first and those of one time by their ids. A job fits by its own id or the id of its array, by a text that its name or its script contains, and by
-- one that some input or some output of it contains.
pub search_lem :
    (f : Filter) (st : State)
    → IsAnswer f (map (λ (e : Str × Entry Job). e.1.value) st.jobs) (search f st)
unfolding search sorted_jobs
search_lem f st =
    let all = map (λ (e : Str × Entry Job). e.1.value) st.jobs in
    IsAnswer-sorted f all _ (search_jobs-IsAnswer f (sort_jobs all) (sort_jobs-IsOrdered all))
