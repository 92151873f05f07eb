-- ===== src/Ledger/Tests.antt =====
-- The theorems on the ledger at small ledgers.
use mathlib.Core.List.{Memᴰ}
use mathlib.Core.List.Memᴰ
use mathlib.Core.Logic.{⊎_elim}
use cgpipe.Prelude.{
  map, ℕ, List, [], ◌∷◌, true, false, Option, none, some, list_eq, nat_eq, ◌≡◌, ◌≢◌, ◌⊎◌, inl, inr,
  arith, ◌↔◌, refl, sym, ◌∙◌, ap,
}
use cgpipe.Prelude.Assoc.{lookup}
use cgpipe.Text.{Str, codes}
use cgpipe.Ledger.{
  Entry, Job, OrdKey, LogRecord, after, text_gt, fold_records, load, owner_of, empty_state,
}
use cgpipe.Ledger.Order.{after_trans, after_total}
use cgpipe.Ledger.Fold.{
  job_claim, owner_claim, IsLatest, Recorded, AreDistinct, records_of, records_of_file,
  jobs-IsLatest, owner-IsLatest, load_order,
}
use cgpipe.Ledger.Query.{Filter, search}
use cgpipe.Ledger.Query.Found.{IsAnswer, search_lem}
use cgpipe.Ledger.Vacuum.{Dir, files_of, vacuum}
use cgpipe.Ledger.Vacuum.Owners.{owner_of-vacuum}

abbrev job_of : Str → List Str → Job
job_of id outputs = record {
  job_id = id;
  run_id = [];
  name = [];
  pipeline = [];
  working_dir = [];
  user = [];
  submit_time = 0;
  outputs = outputs;
  temp = [];
  inputs = [];
  deps = [];
  script = [];
  settings = [];
  array_id = [];
  task_index = 0;
}

abbrev early : LogRecord
early = record {
  ord = record { ts = 1; host = codes "h"; pid = 7; seq = 1 };
  job = job_of (codes "10") (codes "a" ∷ codes "b" ∷ []);
}

abbrev late : LogRecord
late = record {
  ord = record { ts = 2; host = codes "h"; pid = 7; seq = 2 };
  job = job_of (codes "11") (codes "a" ∷ []);
}

abbrev one_file : List (List (Option LogRecord))
one_file = (some early ∷ none ∷ some late ∷ []) ∷ []

abbrev two_files : List (List (Option LogRecord))
two_files = (some late ∷ []) ∷ (some early ∷ some late ∷ []) ∷ []

abbrev directory : Dir
directory = record { snapshot = some early ∷ []; logs = (codes "log", some late ∷ []) ∷ [] }

one_or_other : (r : LogRecord) → Memᴰ r (early ∷ late ∷ []) → (r ≡ early) ⊎ (r ≡ late)
one_or_other r m = elim (Memᴰ.cases_cons m) [
  | inl e ↦ inl e
  | inr more ↦ inr (Memᴰ.eq_of_singleton more)
]

keys_differ : early.ord ≢ late.ord
keys_differ e = absurd (omega (arith, ap (λ (o : OrdKey). o.seq) e))

jobs_differ : early.job.job_id ≢ late.job.job_id
jobs_differ e = absurd (omega (arith, ap second_byte e))
  where
    second_byte : Str → ℕ
    second_byte (x ∷ y ∷ s) = y
    second_byte _ = 0

told_apart :
    {A : Type 0} (key : LogRecord → A) (r s : LogRecord)
    → key early ≢ key late
    → Memᴰ r (early ∷ late ∷ [])
    → Memᴰ s (early ∷ late ∷ [])
    → key r ≡ key s
    → r ≡ s
told_apart key r s ne m n e = elim (one_or_other r m) [
  | inl p ↦ elim (one_or_other s n) [
    | inl q ↦ p ∙ sym q
    | inr q ↦ absurd (ne (ap key (sym p) ∙ (e ∙ ap key q)))
  ]
  | inr p ↦ elim (one_or_other s n) [
    | inl q ↦ absurd (ne (ap key (sym q) ∙ (sym e ∙ ap key p)))
    | inr q ↦ p ∙ sym q
  ]
]

distinct_records : AreDistinct (Recorded (early ∷ late ∷ []))
distinct_records r s m n e = told_apart (λ (v : LogRecord). v.ord) r s keys_differ m n e

same_records : (r : LogRecord) → Memᴰ r (early ∷ late ∷ []) ↔ Memᴰ r (late ∷ early ∷ late ∷ [])
same_records r = (
  λ m. Memᴰ.tail m,
  λ m. ⊎_elim (λ e. Memᴰ.tail (Memᴰ.head e)) (λ more. more) (Memᴰ.cases_cons m),
)

load_order_example :
    ((id : Str) → lookup id (load one_file).jobs ≡ lookup id (load two_files).jobs)
    × ((p : Str) → owner_of (load one_file) p ≡ owner_of (load two_files) p)
unfolding records_of records_of_file
load_order_example = load_order one_file two_files same_records distinct_records

owner-IsLatest_example :
    IsLatest
      (owner_claim (codes "a"))
      (Recorded (early ∷ late ∷ []))
      (lookup (codes "a") (fold_records empty_state (early ∷ late ∷ [])).owner)
owner-IsLatest_example = owner-IsLatest (early ∷ late ∷ []) (codes "a")

jobs-IsLatest_example :
    IsLatest
      (job_claim (codes "10"))
      (Recorded (early ∷ late ∷ []))
      (lookup (codes "10") (fold_records empty_state (early ∷ late ∷ [])).jobs)
jobs-IsLatest_example = jobs-IsLatest (early ∷ late ∷ []) (codes "10")

owner_of-vacuum_example :
    owner_of (load (files_of (vacuum (λ _. false) [] directory))) (codes "a")
    ≡ owner_of (load (files_of directory)) (codes "a")
unfolding records_of records_of_file
owner_of-vacuum_example =
    owner_of-vacuum (λ _. false) [] directory
      (λ r s m n e. told_apart (λ (v : LogRecord). v.job.job_id) r s jobs_differ m n e)
      distinct_records (codes "a")

abbrev third : OrdKey
third = record { ts = 1; host = codes "g"; pid = 9; seq = 5 }

after_trans_example : after late.ord third ≡ true
unfolding after text_gt
after_trans_example = after_trans late.ord early.ord third refl refl

after_total_example :
    (third ≡ late.ord) ⊎ (after third late.ord ≡ true) ⊎ (after late.ord third ≡ true)
after_total_example = after_total third late.ord

abbrev by_output : Filter
by_output = record { id = []; name = []; input = []; output = codes "b"; grep = [] }

search_lem_example :
    IsAnswer by_output
      (map (λ (e : Str × Entry Job). e.1.value) (load one_file).jobs)
      (search by_output (load one_file))
search_lem_example = search_lem by_output (load one_file)
