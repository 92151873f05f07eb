-- ===== src/Runner/Driver/JobArrays/Full.antt =====
-- When the edges of a job come from every task of an array, told by the tasks and not by the map that
-- collapseFullArrayDeps counts them in.
use mathlib.Core.List.{Memᴰ}
use mathlib.Core.List.Memᴰ
use mathlib.Core.Logic.{⊎_elim}
use cgpipe.Prelude.{
  ℕ, List, [], ◌∷◌, Bool, true, false, not, Option, none, some, list_eq, nat_eq, eq_iff, ◌==◌,
  length, ◌≡◌, ◌≢◌, ◌↔◌, ◌⊎◌, inl, inr, refl, sym, ap, ◌∙◌, subst, arith, Bool-cases, Option-cases,
}
use cgpipe.Prelude.Assoc.{lookup}
use cgpipe.Prelude.Distinct.{
  HasNoRepeat, length-HasNoRepeat, keys, length-keys, mem-keys-insert, insert-HasNoRepeat,
}
use cgpipe.Text.{Str}
use cgpipe.Runner.Target.{Pos, pos_eq}
use cgpipe.Runner.Driver.{Ref, ref_eq, Arrays}
use cgpipe.Runner.Driver.JobArrays.{
  DepEdge, group, base_of, edge_group, in_group, note_producer, members_seen, is_full, full_group,
}

module _ (arrays : Arrays) (base : List (Pos × Str)) where
  -- The edge comes from the task `p` of the array `g`.
  abbrev pub TaskOf : Pos → Ref → DepEdge → Type 0
  TaskOf g p e = (e.producer ≡ some p) × (lookup p arrays.array_of ≡ some g)

  -- The array has a base id, and the tasks of it that edges come from are as many as it has.
  pub record IsFull (edges : List DepEdge) (g : Pos) : Type 0 where
    pub based : base_of arrays base g ≢ []
    pub tasks : List Ref
    pub distinct : HasNoRepeat tasks
    pub exact : (p : Ref) → Memᴰ p tasks ↔ ((e : DepEdge) × Memᴰ e edges × TaskOf g p e)
    pub complete : length tasks ≡ length (group arrays base g).members

  -- What an edge is listed by: the base id of its array where that is full, its own id elsewhere.
  abbrev pub StandsFor : List DepEdge → DepEdge → Str → Type 0
  StandsFor edges e id =
      ((g : Pos) × (p : Ref) × TaskOf g p e × IsFull edges g × (id ≡ base_of arrays base g))
      ⊎ (((g : Pos) (p : Ref) → TaskOf g p e → ¬ IsFull edges g) × (id ≡ e.id))

  note_some :
      (g : Pos) (q p : Ref) (o : Option Pos) (seen : List (Ref × Bool))
      → Memᴰ p (keys (note_producer arrays base (some q) (in_group arrays base o g) seen))
        ↔ (((q ≡ p) × (o ≡ some g)) ⊎ Memᴰ p (keys seen))
  note_some g q p none seen = (inr, ⊎_elim (λ h. absurd (cc h.1)) (λ m. m))
  note_some g q p (some h) seen =
      let there = mem-keys-insert p q true seen in
      elim (Bool-cases (h == g)) [
        | inl on ↦
            let same = (eq_iff h g).0 on in
            rw on (
              λ m. ⊎_elim (λ e. inl (e, ap some same)) inr (there.0 m),
              ⊎_elim (λ k. there.1 (inl k.0)) (λ m. there.1 (inr m)),
            )
        | inr off ↦ rw off (
          inr,
          ⊎_elim (λ k. let same : h ≡ g = cc k.1 in absurd (cc ((eq_iff h g).1 same, off)))
              (λ m. m),
        )
      ]

  -- What one edge adds to the tasks that are noted.
  note_edge :
      (g : Pos) (e : DepEdge) (p : Ref) (seen : List (Ref × Bool))
      → Memᴰ p (
          keys (
            note_producer arrays base e.producer
              (in_group arrays base (edge_group arrays base e) g)
              seen))
        ↔ (TaskOf g p e ⊎ Memᴰ p (keys seen))
  unfolding edge_group
  note_edge g e p seen = elim (Option-cases e.producer) [
    | inl off ↦ rw off (inr, ⊎_elim (λ h. absurd (cc h.0)) (λ m. m))
    | inr (q, on) ↦
        let step = note_some g q p (lookup q arrays.array_of) seen in
        rw on (
          λ m.
              ⊎_elim (λ h. inl (ap some h.0, ap (λ r. lookup r arrays.array_of) (sym h.0) ∙ h.1))
                inr (step.0 m),
          ⊎_elim
              (λ h.
                let same : q ≡ p = cc h.0 in
                step.1 (inl (same, ap (λ r. lookup r arrays.array_of) same ∙ h.1)))
              (λ m. step.1 (inr m)),
        )
  ]

  note_edge-HasNoRepeat :
      (o : Option Ref) (b : Bool) (seen : List (Ref × Bool))
      → HasNoRepeat (keys seen)
      → HasNoRepeat (keys (note_producer arrays base o b seen))
  note_edge-HasNoRepeat none b seen h = h
  note_edge-HasNoRepeat (some p) false seen h = h
  note_edge-HasNoRepeat (some p) true seen h = insert-HasNoRepeat p true seen h

  members_seen-HasNoRepeat :
      (g : Pos) (es : List DepEdge) (seen : List (Ref × Bool))
      → HasNoRepeat (keys seen)
      → HasNoRepeat (keys (members_seen arrays base g es seen))
  unfolding members_seen
  members_seen-HasNoRepeat g [] seen h = h
  members_seen-HasNoRepeat g (e ∷ es) seen h =
      members_seen-HasNoRepeat g es _ (note_edge-HasNoRepeat e.producer _ seen h)

  FromTask : Pos → List DepEdge → Ref → Type 0
  FromTask g es p = (e : DepEdge) × Memᴰ e es × TaskOf g p e

  mem-members_seen :
      (g : Pos) (p : Ref) (es : List DepEdge) (seen : List (Ref × Bool))
      → Memᴰ p (keys (members_seen arrays base g es seen)) ↔ (FromTask g es p ⊎ Memᴰ p (keys seen))
  unfolding members_seen FromTask
  mem-members_seen g p [] seen = (inr, ⊎_elim (λ (e, m, t). absurd (Memᴰ.not-nil m)) (λ m. m))
  mem-members_seen g p (d ∷ es) seen =
      let ih = mem-members_seen g p es _ in
      let step = note_edge g d p seen in
      (
        λ h.
            ⊎_elim (λ (e, m, t). inl (e, Memᴰ.tail m, t))
              (λ k. ⊎_elim (λ t. inl (d, Memᴰ.head refl, t)) inr (step.0 k)) (ih.0 h),
        ⊎_elim
            (λ (e, m, t).
              ⊎_elim (λ same. ih.1 (inr (step.1 (inl (subst (TaskOf g p) same t)))))
                (λ more. ih.1 (inl (e, more, t))) (Memᴰ.cases_cons m))
            (λ k. ih.1 (inr (step.1 (inr k)))),
      )

  tasks_seen :
      (g : Pos) (es : List DepEdge) (p : Ref)
      → Memᴰ p (keys (members_seen arrays base g es [])) ↔ FromTask g es p
  tasks_seen g es p =
      let h = mem-members_seen g p es [] in
      (λ m. ⊎_elim (λ k. k) (λ k. absurd (Memᴰ.not-nil k)) (h.0 m), λ k. h.1 (inl k))

  -- The count of `is_full` is that of the tasks.
  count_seen :
      (g : Pos) (es : List DepEdge) (tasks : List Ref)
      → HasNoRepeat tasks
      → ((p : Ref) → Memᴰ p tasks ↔ FromTask g es p)
      → length (members_seen arrays base g es []) ≡ length tasks
  count_seen g es tasks h exact =
      let seen = members_seen arrays base g es [] in
      let up =
        length-HasNoRepeat (keys seen) tasks (members_seen-HasNoRepeat g es [] tt)
          (λ p m. (exact p).1 ((tasks_seen g es p).0 m)) in
      let down =
        length-HasNoRepeat tasks (keys seen) h (λ p m. (tasks_seen g es p).1 ((exact p).0 m)) in
      omega (arith, up, down, length-keys seen)

  is_full_iff :
      (edges : List DepEdge) (g : Pos) → (is_full arrays base edges g ≡ true) ↔ IsFull edges g
  unfolding is_full FromTask
  is_full_iff edges g = (
    λ h.
        let seen = members_seen arrays base g edges [] in
        let some_id : not (base_of arrays base g == []) ≡ true = ground arith in
        let count : length seen ≡ length (group arrays base g).members = ground arith in
        record {
          based = λ e. cc ((eq_iff (base_of arrays base g) []).1 e, some_id);
          tasks = keys seen;
          distinct = members_seen-HasNoRepeat g edges [] tt;
          exact = tasks_seen g edges;
          complete = length-keys seen ∙ count;
        },
    λ f.
        let count = count_seen g edges f.tasks f.distinct f.exact in
        elim (Bool-cases (base_of arrays base g == [])) [
          | inl e ↦ absurd (f.based ((eq_iff (base_of arrays base g) []).0 e))
          | inr e ↦ rw e (eq_self_nat (count ∙ f.complete))
        ],
  )
    where
      eq_self_nat : {m n : ℕ} → m ≡ n → (m == n) ≡ true
      eq_self_nat e = (eq_iff _ _).1 e

  -- The id that an edge is listed by.
  abbrev pub listed_as : Option Pos → Str → Str
  listed_as none id = id
  listed_as (some g) id = base_of arrays base g

  -- The full array that an edge comes from, if it comes from one.
  abbrev pub full_of : List DepEdge → DepEdge → Option Pos
  full_of all e = full_group arrays base all (edge_group arrays base e)

  group_of_producer :
      (id : Str) (o : Option Ref) (g : Pos)
      → (edge_group arrays base (record { id = id; producer = o }) ≡ some g)
        ↔ ((p : Ref) × TaskOf g p (record { id = id; producer = o }))
  unfolding edge_group
  group_of_producer id none g = (λ h. absurd (cc h), λ (p, t). absurd (cc t.0))
  group_of_producer id (some q) g = (
    λ h. (q, (refl, h)),
    λ (p, t). let same : q ≡ p = cc t.0 in ap (λ r. lookup r arrays.array_of) same ∙ t.1,
  )

  edge_group_iff :
      (e : DepEdge) (g : Pos) → (edge_group arrays base e ≡ some g) ↔ ((p : Ref) × TaskOf g p e)
  edge_group_iff e g = group_of_producer e.id e.producer g

  StandsFor-iff :
      (edges : List DepEdge) (e : DepEdge) (id : Str) (o : Option Pos)
      → edge_group arrays base e ≡ o
      → (listed_as (full_group arrays base edges o) e.id ≡ id) ↔ StandsFor edges e id
  StandsFor-iff edges e id none at = (
    λ h. inr (λ g p t. absurd (cc ((edge_group_iff e g).1 (p, t), at)), sym h),
    ⊎_elim (λ (g, p, t, full, h). absurd (cc ((edge_group_iff e g).1 (p, t), at))) (λ k. sym k.1),
  )
  StandsFor-iff edges e id (some g) at =
      let (p, task) = (edge_group_iff e g).0 at in
      let only : (h : Pos) (q : Ref) → TaskOf h q e → g ≡ h =
        λ h q t. cc ((edge_group_iff e h).1 (q, t), at) in
      elim (Bool-cases (is_full arrays base edges g)) [
        | inl on ↦
            let full = (is_full_iff edges g).0 on in
            rw on (
              λ h. inl (g, p, task, full, sym h),
              ⊎_elim (λ (h, q, t, f, e'). ap (base_of arrays base) (only h q t) ∙ sym e')
                  (λ k. absurd (k.0 g p task full)),
            )
        | inr off ↦
            let partial : ¬ IsFull edges g = λ f. cc ((is_full_iff edges g).1 f, off) in
            rw off (
              λ h. inr (λ k q t f. partial (subst (IsFull edges) (sym (only k q t)) f), sym h),
              ⊎_elim
                  (λ (h, q, t, f, e'). absurd (partial (subst (IsFull edges) (sym (only h q t)) f)))
                  (λ k. sym k.1),
            )
      ]

  -- An edge is listed by what it stands for.
  pub listed_iff :
      (edges : List DepEdge) (e : DepEdge) (id : Str)
      → (listed_as (full_of edges e) e.id ≡ id) ↔ StandsFor edges e id
  listed_iff edges e id = StandsFor-iff edges e id (edge_group arrays base e) refl
