-- ===== src/Prelude/Distinct.antt =====
-- Lists in which no item stands twice, and the keys of an association list.
use mathlib.Core.List.{Memᴰ}
use mathlib.Core.List.Memᴰ
use mathlib.Core.Logic.{⊎_elim}
use cgpipe.Prelude.{
  ◌≤◌, suc, List, [], ◌∷◌, map, length, Eq, ◌==◌, eq_iff, ◌≡◌, ◌≢◌, ◌↔◌, ◌⊎◌, inl, inr, refl, sym,
  ap, ◌∙◌, arith, Bool-cases,
}
use cgpipe.Prelude.Assoc.{insert}

module _ {ℓ} {A : Type ℓ} where
  -- No item stands in the list twice.
  abbrev pub HasNoRepeat : List A → Type ℓ
  HasNoRepeat [] = Unit
  HasNoRepeat (x ∷ xs) = (¬ Memᴰ x xs) × HasNoRepeat xs

  -- A list without one of its items.
  record Without (x : A) (ys : List A) : Type ℓ where
    rest : List A
    shorter : length ys ≡ suc (length rest)
    others : (z : A) → Memᴰ z ys → z ≢ x → Memᴰ z rest

  pull : (x : A) (ys : List A) → Memᴰ x ys → Without x ys
  pull x [] m = absurd (Memᴰ.not-nil m)
  pull x (y ∷ ys) (Memᴰ.head e) = record {
    rest = ys;
    shorter = refl;
    others = λ z m ne. ⊎_elim (λ q. absurd (ne (q ∙ sym e))) (λ k. k) (Memᴰ.cases_cons m);
  }
  pull x (y ∷ ys) (Memᴰ.tail m) =
      let w = pull x ys m in
      record {
        rest = y ∷ w.rest;
        shorter = ap suc w.shorter;
        others =
            λ z k ne. ⊎_elim Memᴰ.head (λ more. Memᴰ.tail (w.others z more ne)) (Memᴰ.cases_cons k);
      }

  -- Distinct items that all stand in another list are at most as many as it has.
  pub length-HasNoRepeat :
      (xs ys : List A) → HasNoRepeat xs → ((z : A) → Memᴰ z xs → Memᴰ z ys) → length xs ≤ length ys
  length-HasNoRepeat [] ys h within = omega arith
  length-HasNoRepeat (x ∷ xs) ys h within =
      let w = pull x ys (within x (Memᴰ.head refl)) in
      let inner =
        length-HasNoRepeat xs w.rest h.1
          (λ z m. w.others z (within z (Memᴰ.tail m)) (λ e. h.0 (Memᴰ.cast (sym e) m))) in
      omega (arith, inner, w.shorter)

module _ {ℓ κ} {K : Type ℓ} {V : Type κ} ⦃e : Eq K⦄ where
  abbrev pub keys : List (K × V) → List K
  keys m = map (λ (entry : K × V). entry.0) m

  pub length-keys : (m : List (K × V)) → length (keys m) ≡ length m
  length-keys [] = refl
  length-keys (x ∷ m) = ap suc (length-keys m)

  pub mem-keys-insert :
      (k j : K) (v : V) (m : List (K × V))
      → Memᴰ k (keys (insert j v m)) ↔ ((j ≡ k) ⊎ Memᴰ k (keys m))
  unfolding insert
  mem-keys-insert k j v [] = (
    λ m. inl (sym (Memᴰ.eq_of_singleton m)),
    ⊎_elim (λ q. Memᴰ.head (sym q)) (λ m. absurd (Memᴰ.not-nil m)),
  )
  mem-keys-insert k j v ((i, w) ∷ m) = elim (Bool-cases (i == j)) [
    | inl on ↦
        let same = (eq_iff i j).0 on in
        rw on (
          λ h. ⊎_elim (λ q. inl (sym q)) (λ more. inr (Memᴰ.tail more)) (Memᴰ.cases_cons h),
          ⊎_elim (λ q. Memᴰ.head (sym q))
              (λ h. ⊎_elim (λ q. Memᴰ.head (q ∙ same)) Memᴰ.tail (Memᴰ.cases_cons h)),
        )
    | inr off ↦
        let ih = mem-keys-insert k j v m in
        rw off (
          λ h.
              ⊎_elim (λ q. inr (Memᴰ.head q))
                (λ more. ⊎_elim inl (λ deep. inr (Memᴰ.tail deep)) (ih.0 more)) (Memᴰ.cases_cons h),
          ⊎_elim (λ q. Memᴰ.tail (ih.1 (inl q)))
              (λ h. ⊎_elim Memᴰ.head (λ more. Memᴰ.tail (ih.1 (inr more))) (Memᴰ.cases_cons h)),
        )
  ]

  pub insert-HasNoRepeat :
      (j : K) (v : V) (m : List (K × V)) → HasNoRepeat (keys m) → HasNoRepeat (keys (insert j v m))
  unfolding insert
  insert-HasNoRepeat j v [] h = (λ m. Memᴰ.not-nil m, tt)
  insert-HasNoRepeat j v ((i, w) ∷ m) h = elim (Bool-cases (i == j)) [
    | inl on ↦ rw on (λ k. h.0 (Memᴰ.cast ((eq_iff i j).0 on) k), h.1)
    | inr off ↦ rw off (
      λ k.
          ⊎_elim (λ q. absurd (cc ((eq_iff i j).1 (sym q), off))) h.0
            ((mem-keys-insert i j v m).0 k),
      insert-HasNoRepeat j v m h.1,
    )
  ]
