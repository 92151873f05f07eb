-- ===== src/Ledger/Query/Meant.antt =====
-- What the filter of Search asks of a job.
use mathlib.Core.List.{Memᴰ}
use mathlib.Core.List.Memᴰ
use mathlib.Core.Logic.{⊎_elim}
use cgpipe.Prelude.{
  List, [], ◌∷◌, Bool, true, false, not, ◌&&◌, list_eq, ◌==◌, eq_iff, ◌≡◌, ◌≢◌, ◌↔◌, ◌⊎◌, refl, ap,
  inl, inr, Bool-cases, arith, nat_eq,
}
use cgpipe.Text.{Str, contains_text}
use cgpipe.Ledger.{Job}
use cgpipe.Ledger.Query.{Filter, any_contains, match_id, selects}

-- What the fields of a filter ask of a job; a field that is empty asks nothing.
pub record IsMeant (f : Filter) (j : Job) : Type 0 where
  pub by_id : (f.id ≡ []) ⊎ ((j.job_id ≡ f.id) ⊎ ((j.array_id ≢ []) × (j.array_id ≡ f.id)))
  pub by_name : (f.name ≡ []) ⊎ (contains_text j.name f.name ≡ true)
  pub by_input : (f.input ≡ []) ⊎ ((p : Str) × Memᴰ p j.inputs × (contains_text p f.input ≡ true))
  pub by_output :
      (f.output ≡ []) ⊎ ((p : Str) × Memᴰ p j.outputs × (contains_text p f.output ≡ true))
  pub by_grep : (f.grep ≡ []) ⊎ (contains_text j.script f.grep ≡ true)

any_contains_iff :
    (ps : List Str) (sub : Str)
    → (any_contains ps sub ≡ true) ↔ ((p : Str) × Memᴰ p ps × (contains_text p sub ≡ true))
unfolding any_contains
any_contains_iff [] sub = (λ e. cc e, λ (p, m, e). absurd (Memᴰ.not-nil m))
any_contains_iff (q ∷ ps) sub = elim (Bool-cases (contains_text q sub)) [
  | inl on ↦ rw on (λ e. (q, Memᴰ.head refl, on), λ k. refl)
  | inr off ↦
      let ih = any_contains_iff ps sub in
      rw off (
        λ e. let (p, m, there) = ih.0 e in (p, Memᴰ.tail m, there),
        λ (p, m, there).
            ⊎_elim (λ same. absurd (cc (ap (λ x. contains_text x sub) same, there, off)))
              (λ more. ih.1 (p, more, there)) (Memᴰ.cases_cons m),
      )
]

-- A field that is empty, or a test that holds.
field_iff :
    {P : Type 0} (field : Str) (b : Bool)
    → (b ≡ true) ↔ P
    → (not (field == []) && not b ≡ false) ↔ ((field ≡ []) ⊎ P)
field_iff field b h = elim (Bool-cases (field == [])) [
  | inl e ↦ rw e (λ k. inl ((eq_iff field []).0 e), λ k. refl)
  | inr e ↦ rw e (
    λ k. inr (h.0 (ground arith)),
    λ k.
        ⊎_elim (λ q. absurd (cc ((eq_iff field []).1 q, e))) (λ p. let on = h.1 p in ground arith)
          k,
  )
]

match_id_iff :
    (j : Job) (id : Str)
    → (match_id j id ≡ true) ↔ ((j.job_id ≡ id) ⊎ ((j.array_id ≢ []) × (j.array_id ≡ id)))
unfolding match_id
match_id_iff j id = (
  λ e. elim (Bool-cases (j.job_id == id)) [
    | inl own ↦ inl ((eq_iff j.job_id id).0 own)
    | inr other ↦
        let named : not (j.array_id == []) ≡ true = ground arith in
        let same : (j.array_id == id) ≡ true = ground arith in
        inr (λ q. cc ((eq_iff j.array_id []).1 q, named), (eq_iff j.array_id id).0 same)
  ],
  λ k. ground (arith, k, eq_iff j.job_id id, eq_iff j.array_id id, eq_iff j.array_id []),
)

-- The tests of Search are what the fields ask.
pub selects_iff : (f : Filter) (j : Job) → (selects f j ≡ true) ↔ IsMeant f j
unfolding selects
selects_iff f j =
    let id_lem = field_iff f.id (match_id j f.id) (match_id_iff j f.id) in
    let name_lem = field_iff f.name (contains_text j.name f.name) (λ e. e, λ e. e) in
    let input_lem =
      field_iff f.input (any_contains j.inputs f.input) (any_contains_iff j.inputs f.input) in
    let output_lem =
      field_iff f.output (any_contains j.outputs f.output) (any_contains_iff j.outputs f.output) in
    let grep_lem = field_iff f.grep (contains_text j.script f.grep) (λ e. e, λ e. e) in
    (
      λ e. record {
        by_id = id_lem.0 (ground arith);
        by_name = name_lem.0 (ground arith);
        by_input = input_lem.0 (ground arith);
        by_output = output_lem.0 (ground arith);
        by_grep = grep_lem.0 (ground arith);
      },
      λ m.
          rw
            (
              id_lem.1 m.by_id,
              name_lem.1 m.by_name,
              input_lem.1 m.by_input,
              output_lem.1 m.by_output,
              grep_lem.1 m.by_grep,
            )
            refl,
    )
