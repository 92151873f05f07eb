-- ===== src/Container/Mounts.antt =====
-- The directories that a container binds.
use mathlib.Core.List.{Memᴰ}
use mathlib.Core.List.Memᴰ
use mathlib.Core.Logic.{⊎_elim}
use cgpipe.Prelude.{
  List, [], ◌∷◌, ◌++◌, list_eq, nat_eq, ◌==◌, eq_iff, contains, contains_iff, ◌≡◌, ◌≢◌, ◌↔◌, ◌⊎◌,
  inl, inr, refl, sym, ◌∙◌, subst, Bool-cases,
}
use cgpipe.Prelude.Distinct.{HasNoRepeat}
use cgpipe.Text.{Str}
use cgpipe.Container.{Spec, Library, abs_dir, add_mount, add_all, mount_candidates, compute_mounts}

-- What one call of `add` does.
add_mount_cases :
    (out : List Str) (d : Str)
    → ((add_mount out d ≡ out) × ((d ≡ []) ⊎ Memᴰ d out))
      ⊎ ((add_mount out d ≡ out ++ (d ∷ [])) × (d ≢ []) × (¬ Memᴰ d out))
unfolding add_mount
add_mount_cases out d = elim (Bool-cases (d == [])) [
  | inl e ↦ inl (rw e refl, inl ((eq_iff d []).0 e))
  | inr e ↦ elim (Bool-cases (contains out d)) [
    | inl m ↦ inl (rw (e, m) refl, inr ((contains_iff out d).0 m))
    | inr m ↦
        inr (rw (e, m) refl, λ q. cc ((eq_iff d []).1 q, e), λ k. cc ((contains_iff out d).1 k, m))
  ]
]

HasNoRepeat-append :
    (out : List Str) (d : Str) → HasNoRepeat out → ¬ Memᴰ d out → HasNoRepeat (out ++ (d ∷ []))
HasNoRepeat-append [] d h fresh = (fresh, tt)
HasNoRepeat-append (x ∷ out) d h fresh = (
  λ m. ⊎_elim h.0 (λ e. fresh (Memᴰ.head (sym (Memᴰ.eq_of_singleton e)))) (Memᴰ.append_cases out m),
  HasNoRepeat-append out d h.1 (λ m. fresh (Memᴰ.tail m)),
)

-- What the calls of `add` on `ds` make of `out`.
record Adds (out ds res : List Str) : Type 0 where
  no_repeat : HasNoRepeat res
  within : (x : Str) → Memᴰ x res → Memᴰ x out ⊎ ((x ≢ []) × Memᴰ x ds)
  kept : (x : Str) → Memᴰ x out → Memᴰ x res
  added : (x : Str) → Memᴰ x ds → x ≢ [] → Memᴰ x res

skipped :
    (out ds res : List Str) (d : Str)
    → (d ≡ []) ⊎ Memᴰ d out
    → Adds out ds res
    → Adds out (d ∷ ds) res
skipped out ds res d there h = record {
  no_repeat = h.no_repeat;
  within = λ x m. ⊎_elim inl (λ k. inr (k.0, Memᴰ.tail k.1)) (h.within x m);
  kept = h.kept;
  added = λ x m ne.
      ⊎_elim
        (λ same.
          ⊎_elim (λ e. absurd (ne (same ∙ e)))
            (λ k. subst (λ v. Memᴰ v res) (sym same) (h.kept d k)) there)
        (λ k. h.added x k ne) (Memᴰ.cases_cons m);
}

appended :
    (out ds res : List Str) (d : Str)
    → d ≢ []
    → Adds (out ++ (d ∷ [])) ds res
    → Adds out (d ∷ ds) res
appended out ds res d ne h = record {
  no_repeat = h.no_repeat;
  within = λ x m.
      ⊎_elim
        (λ old.
          ⊎_elim inl (λ k. let e = Memᴰ.eq_of_singleton k in inr (λ q. ne (sym e ∙ q), Memᴰ.head e))
            (Memᴰ.append_cases out old))
        (λ k. inr (k.0, Memᴰ.tail k.1)) (h.within x m);
  kept = λ x m. h.kept x (Memᴰ.append_left _ m);
  added = λ x m ne'.
      ⊎_elim (λ e. h.kept x (Memᴰ.append_right out (Memᴰ.head e))) (λ k. h.added x k ne')
        (Memᴰ.cases_cons m);
}

add_all-Adds : (out ds : List Str) → HasNoRepeat out → Adds out ds (add_all out ds)
unfolding add_all
add_all-Adds out [] h = record {
  no_repeat = h;
  within = λ x m. inl m;
  kept = λ x m. m;
  added = λ x m ne. absurd (Memᴰ.not-nil m);
}
add_all-Adds out (d ∷ ds) h = elim (add_mount_cases out d) [
  | inl (e, there) ↦ rw e (skipped out ds (add_all out ds) d there (add_all-Adds out ds h))
  | inr (e, ne, fresh) ↦ rw e (
      appended out ds (add_all (out ++ (d ∷ [])) ds) d ne
        (add_all-Adds (out ++ (d ∷ [])) ds (HasNoRepeat-append out d h fresh)))
]

-- A directory that the job names.
pub data IsNamed (lib : Library) (s : Spec) (body_dir wd d : Str) : Type 0 where
  of_body : d ≡ body_dir → IsNamed lib s body_dir wd d
  of_work : d ≡ abs_dir lib wd → IsNamed lib s body_dir wd d
  of_bind : Memᴰ d s.binds → IsNamed lib s body_dir wd d
  of_input : (p : Str) → Memᴰ p s.inputs → d ≡ abs_dir lib (lib.dir p) → IsNamed lib s body_dir wd d
  of_output :
      (p : Str) → Memᴰ p s.outputs → d ≡ abs_dir lib (lib.dir p) → IsNamed lib s body_dir wd d

module _ (lib : Library) (s : Spec) (body_dir wd d : Str) where
  candidate-IsNamed : Memᴰ d (mount_candidates lib s body_dir wd) → IsNamed lib s body_dir wd d
  unfolding mount_candidates
  candidate-IsNamed m = elim (Memᴰ.cases_cons m) [
    | inl e ↦ of_body e
    | inr more ↦ elim (Memᴰ.cases_cons more) [
      | inl e ↦ of_work e
      | inr rest ↦ elim (Memᴰ.append_cases s.binds rest) [
        | inl k ↦ of_bind k
        | inr k ↦
            let (p, there, e) =
              Memᴰ.of_map (λ q. abs_dir lib (lib.dir q)) (s.inputs ++ s.outputs) k in
            ⊎_elim (λ i. of_input p i (sym e)) (λ o. of_output p o (sym e))
              (Memᴰ.append_cases s.inputs there)
      ]
    ]
  ]

  path_dir :
      (p : Str)
      → Memᴰ p (s.inputs ++ s.outputs)
      → d ≡ abs_dir lib (lib.dir p)
      → Memᴰ d (mount_candidates lib s body_dir wd)
  unfolding mount_candidates
  path_dir p m e = Memᴰ.tail (
      Memᴰ.tail
        (Memᴰ.append_right s.binds (Memᴰ.cast e (Memᴰ.map (λ q. abs_dir lib (lib.dir q)) m))))

  named-candidate : IsNamed lib s body_dir wd d → Memᴰ d (mount_candidates lib s body_dir wd)
  unfolding mount_candidates
  named-candidate (of_body e) = Memᴰ.head e
  named-candidate (of_work e) = Memᴰ.tail (Memᴰ.head e)
  named-candidate (of_bind m) = Memᴰ.tail (Memᴰ.tail (Memᴰ.append_left _ m))
  named-candidate (of_input p m e) = path_dir p (Memᴰ.append_left _ m) e
  named-candidate (of_output p m e) = path_dir p (Memᴰ.append_right s.inputs m) e

-- Each directory is bound at most once, and the ones that are bound are, of those that are not
-- empty, that of the body, the working directory, the explicit binds, and those of the inputs and
-- of the outputs.
pub compute_mounts_lem :
    (lib : Library) (s : Spec) (body_dir wd : Str)
    → HasNoRepeat (compute_mounts lib s body_dir wd)
      × ((d : Str)
          → Memᴰ d (compute_mounts lib s body_dir wd) ↔ ((d ≢ []) × IsNamed lib s body_dir wd d))
unfolding compute_mounts
compute_mounts_lem lib s body_dir wd =
    let h = add_all-Adds [] (mount_candidates lib s body_dir wd) tt in
    (
      h.no_repeat,
      λ d. (
        λ m.
            ⊎_elim (λ none_such. absurd (Memᴰ.not-nil none_such))
              (λ (some_dir, k). (some_dir, candidate-IsNamed lib s body_dir wd d k)) (h.within d m),
        λ (some_dir, k). h.added d (named-candidate lib s body_dir wd d k) some_dir,
      ),
    )
