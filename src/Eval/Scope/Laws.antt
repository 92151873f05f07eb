-- ===== src/Eval/Scope/Laws.antt =====
-- What `assign` and `clone` do to the variables that can be seen.
use cgpipe.Prelude.{
  ℕ, zero, suc, ◌<◌, List, [], ◌∷◌, Option, none, some, list_eq, nat_eq, ◌≡◌, ◌≢◌, refl, ap, ◌∙◌,
  sym, inl, inr, if◌then◌else◌, length, ◌==◌, eq_iff, arith, Option-cases, Bool-cases,
}
use cgpipe.Prelude.Assoc.{lookup, insert, lookup-insert}
use cgpipe.Text.{Str}
use cgpipe.Eval.Scope.{or_else, get, update, frame_of, home, assign, put_all, flatten, clone}

module _ {ℓ} {V : Type ℓ} where
  -- The value of a name behind an assignment to another, or to the same.
  abbrev seen : Str → Str → V → List (List (Str × V)) → Option V
  seen name asked v s = if name == asked then some v else get asked s

  not_here :
      (name : Str) (f : List (Str × V)) (fs : List (List (Str × V)))
      → frame_of name (f ∷ fs) ≡ none
      → (lookup name f ≡ none) × (frame_of name fs ≡ none)
  unfolding frame_of
  not_here name f fs h =
      ground (arith, Option-cases (lookup name f), Option-cases (frame_of name fs))

  pub not_yet :
      (name : Str) (f : List (Str × V)) (fs : List (List (Str × V))) (i : ℕ)
      → frame_of name (f ∷ fs) ≡ some (suc i)
      → (lookup name f ≡ none) × (frame_of name fs ≡ some i)
  unfolding frame_of
  not_yet name f fs i h =
      ground (arith, Option-cases (lookup name f), Option-cases (frame_of name fs))

  behind :
      (name asked : Str) (v : V) (f : List (Str × V)) (fs : List (List (Str × V)))
      → lookup name f ≡ none
      → or_else (lookup asked f) (seen name asked v fs) ≡ seen name asked v (f ∷ fs)
  unfolding get
  behind name asked v f fs h = elim (Bool-cases (name == asked)) [
    | inl same ↦
        let e : lookup asked f ≡ none =
          ap (λ k. lookup k f) (sym ((eq_iff name asked).0 same)) ∙ h in
        rw (same, e) refl
    | inr other ↦ rw other refl
  ]

  get-bound :
      (name asked : Str) (v : V) (s : List (List (Str × V))) (i : ℕ)
      → frame_of name s ≡ some i
      → get asked (update (insert name v) i s) ≡ seen name asked v s
  unfolding frame_of get update
  get-bound name asked v [] i h = cc h
  get-bound name asked v (f ∷ fs) zero h =
      ground (arith, lookup-insert name asked v f, Option-cases (lookup name f), eq_iff name asked)
  get-bound name asked v (f ∷ fs) (suc i) h =
      let (off, rest) = not_yet name f fs i h in
      ap (or_else (lookup asked f)) (get-bound name asked v fs i rest)
      ∙ behind name asked v f fs off

  get-unbound :
      (name asked : Str) (v : V) (s : List (List (Str × V))) (i : ℕ)
      → frame_of name s ≡ none
      → i < length s
      → get asked (update (insert name v) i s) ≡ seen name asked v s
  unfolding frame_of get update
  get-unbound name asked v [] i h bound = absurd (omega arith)
  get-unbound name asked v (f ∷ fs) zero h bound =
      ground (arith, lookup-insert name asked v f, Option-cases (lookup name f), eq_iff name asked)
  get-unbound name asked v (f ∷ fs) (suc i) h bound =
      let (off, rest) = not_here name f fs h in
      ap (or_else (lookup asked f)) (get-unbound name asked v fs i rest (omega arith))
      ∙ behind name asked v f fs off

  lookup-put_all :
      (name : Str) (f m : List (Str × V))
      → lookup name (put_all f m) ≡ or_else (lookup name f) (lookup name m)
  unfolding put_all lookup
  lookup-put_all name [] m = refl
  lookup-put_all name ((k, v) ∷ f) m =
      ground (arith, lookup-insert k name v (put_all f m), lookup-put_all name f m)

  lookup-flatten : (name : Str) (s : List (List (Str × V))) → lookup name (flatten s) ≡ get name s
  unfolding flatten get lookup
  lookup-flatten name [] = refl
  lookup-flatten name (f ∷ fs) =
      lookup-put_all name f (flatten fs) ∙ ap (or_else (lookup name f)) (lookup-flatten name fs)

  home_bound :
      (name : Str) (s : List (List (Str × V)))
      → s ≢ []
      → frame_of name s ≡ none
      → home name s < length s
  unfolding home
  home_bound name [] some_frame h = absurd (some_frame refl)
  home_bound name (f ∷ fs) some_frame h = rw h (ground arith)

  -- In a scope with a frame, an assignment makes the name have the value, whichever frame takes it,
  -- and leaves what can be seen of every other name as it was.
  pub get-assign :
      (name asked : Str) (v : V) (s : List (List (Str × V)))
      → s ≢ []
      → get asked (assign name v s).0 ≡ (if name == asked then some v else get asked s)
  unfolding assign home
  get-assign name asked v s some_frame = elim (Option-cases (frame_of name s)) [
    | inl off ↦ get-unbound name asked v s (home name s) off (home_bound name s some_frame off)
    | inr (i, on) ↦ rw on (get-bound name asked v s i on)
  ]

  -- A clone shows every name as the scope does.
  pub get-clone : (name : Str) (s : List (List (Str × V))) → get name (clone s) ≡ get name s
  unfolding clone get
  get-clone name s = ground (arith, lookup-flatten name s, Option-cases (lookup name (flatten s)))
