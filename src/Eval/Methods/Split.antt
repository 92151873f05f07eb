-- ===== src/Eval/Methods/Split.antt =====
-- A text that is split at a separator is joined to what it was.
use cgpipe.Prelude.{
  ℕ, zero, suc, ◌-◌, ◌≤◌, List, [], ◌∷◌, ◌++◌, Bool, true, false, if◌then◌else◌, nat_eq, length,
  drop, ◌≡◌, ◌≢◌, refl, sym, ap, ◌∙◌, arith,
}
use cgpipe.Text.{Str, codes, join, has_prefix}
use cgpipe.Text.Laws.{has_prefix_split}
use cgpipe.Exec.{ok}
use cgpipe.Eval.Value.{Floats, str_val, Heap, then_do, str_list, texts_of, map_text}
use cgpipe.Eval.Methods.{TextLibrary, onto_part, split_from, join_values, string_method}

abbrev Filled : List Str → Type 0
Filled [] = ⊥
Filled (p ∷ ps) = Unit

Filled-if : (b : Bool) (x y : List Str) → Filled x → Filled y → Filled (if b then x else y)
Filled-if true x y h k = h
Filled-if false x y h k = k

onto_part-Filled : (c : ℕ) (ps : List Str) → Filled (onto_part c ps)
onto_part-Filled c [] = tt
onto_part-Filled c (p ∷ ps) = tt

split_from-Filled : (s sep : Str) (skip : ℕ) → Filled (split_from skip sep s)
unfolding split_from
split_from-Filled [] sep skip = tt
split_from-Filled (c ∷ s) sep (suc skip) = split_from-Filled s sep skip
split_from-Filled (c ∷ s) sep zero =
    Filled-if (has_prefix (c ∷ s) sep) _ _ tt (onto_part-Filled c (split_from zero sep s))

join-front :
    (sep p : Str) (ps : List Str) → Filled ps → join (p ∷ ps) sep ≡ p ++ (sep ++ join ps sep)
unfolding join
join-front sep p [] h = absurd h
join-front sep p (q ∷ ps) h = refl

join-onto_part :
    (sep : Str) (c : ℕ) (ps : List Str) → Filled ps → join (onto_part c ps) sep ≡ c ∷ join ps sep
unfolding join
join-onto_part sep c [] h = absurd h
join-onto_part sep c (p ∷ []) h = refl
join-onto_part sep c (p ∷ q ∷ ps) h = refl

has_prefix-length : (s p : Str) → has_prefix s p ≡ true → length p ≤ length s
unfolding has_prefix
has_prefix-length s [] h = omega arith
has_prefix-length [] (c ∷ p) h = cc h
has_prefix-length (d ∷ s) (c ∷ p) h = ground (arith, has_prefix-length s p)

join-if :
    (sep t : Str) (b : Bool) (x y : List Str)
    → (b ≡ true → join x sep ≡ t)
    → (b ≡ false → join y sep ≡ t)
    → join (if b then x else y) sep ≡ t
join-if sep t true x y h k = h refl
join-if sep t false x y h k = k refl

join-split_from :
    (s : Str) (c : ℕ) (sep : Str) (skip : ℕ)
    → skip ≤ length s
    → join (split_from skip (c ∷ sep) s) (c ∷ sep) ≡ drop skip s
unfolding split_from join
join-split_from [] c sep zero le = refl
join-split_from [] c sep (suc skip) le = absurd (omega (arith, le))
join-split_from (d ∷ s) c sep (suc skip) le = join-split_from s c sep skip (omega (arith, le))
join-split_from (d ∷ s) c sep zero le =
    join-if (c ∷ sep) (d ∷ s) (has_prefix (d ∷ s) (c ∷ sep)) _ _
      (λ e.
        let m : ℕ = suc (length sep) - 1 in
        let same : m ≡ length sep = omega arith in
        let fits : suc (length sep) ≤ suc (length s) = has_prefix-length (d ∷ s) (c ∷ sep) e in
        join-front (c ∷ sep) [] (split_from m (c ∷ sep) s) (split_from-Filled s (c ∷ sep) m)
        ∙ ap (λ t. (c ∷ sep) ++ t) (join-split_from s c sep m (omega (arith, same, fits)))
        ∙ ap (λ k. (c ∷ sep) ++ drop k s) same
        ∙ sym (has_prefix_split (d ∷ s) (c ∷ sep) e))
      (λ _.
        join-onto_part (c ∷ sep) d (split_from 0 (c ∷ sep) s) (split_from-Filled s (c ∷ sep) 0)
        ∙ ap (λ t. d ∷ t) (join-split_from s c sep 0 (omega arith)))

-- A list of texts is written as they are.
join_values-str_list :
    {F : Type 0} ⦃floats : Floats F⦄
    → (h : Heap F) (sep : Str) (ps : List Str) → join_values h (str_list ps) sep ≡ ok (join ps sep)
unfolding join_values
join_values-str_list {F} h sep ps = ap (λ r. then_do r λ parts. ok (join parts sep)) (written ps)
  where
    written : (ps : List Str) → texts_of {F = F} (map_text (suc (length h)) h) (str_list ps) ≡ ok ps
    written [] = refl
    written (p ∷ ps) = ap (λ r. then_do r λ ss. ok (p ∷ ss)) (written ps)

module _ {F W : Type 0} ⦃floats : Floats F⦄ where
  -- What `split` makes of a text by a separator that is not empty, `join` of that separator puts together
  -- to the text again.
  pub join-split :
      (h : Heap F) (lib : TextLibrary W) (w : W) (s sep : Str)
      → sep ≢ []
      → then_do
          (string_method h lib w s (codes "split") (str_val sep ∷ []))
          (λ parts. string_method h lib w sep (codes "join") (parts ∷ []))
        ≡ ok (str_val s)
  unfolding string_method
  join-split h lib w s [] ne = absurd (ne refl)
  join-split h lib w s (c ∷ sep) ne =
      ap (λ r. then_do r λ t. ok (str_val t))
        (join_values-str_list h (c ∷ sep) (split_from 0 (c ∷ sep) s))
      ∙ ap (λ t. ok (str_val t)) (join-split_from s c sep 0 (omega arith))
