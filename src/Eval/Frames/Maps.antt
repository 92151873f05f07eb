-- ===== src/Eval/Frames/Maps.antt =====
-- What an assignment to a key of a map is seen as.
use cgpipe.Prelude.{
  ℕ, zero, suc, ◌<◌, List, [], ◌∷◌, ◌&&◌, Option, none, some, nat_eq, list_eq, if◌then◌else◌, ◌==◌,
  length, ◌≡◌, refl, ap, ◌∙◌, arith, eq_iff, Bool-cases, inl, inr,
}
use cgpipe.Text.{Str}
use cgpipe.Syntax.Token
use cgpipe.Eval.Value.{
  Value, list_val, no_values, value_then, append_values, Heap, map_set, map_get, map_at,
}
use cgpipe.Eval.Frames.{grown, is_bound, entry_by, change_map}

module _ {F : Type 0} where
  map_get-map_set :
      (k q : Str) (v : Value F) (es : List (Str × Value F))
      → map_get q (map_set k v es) ≡ (if q == k then some v else map_get q es)
  unfolding map_get map_set
  map_get-map_set k q v [] = refl
  map_get-map_set k q v ((l, w) ∷ es) =
      ground (arith, map_get-map_set k q v es, eq_iff k l, eq_iff q l, eq_iff q k)

  map_at-change_map :
      (f : List (Str × Value F) → List (Str × Value F)) (m a : ℕ) (h : Heap F)
      → m < length h
      → map_at a (change_map m f h) ≡ (if a == m then f (map_at a h) else map_at a h)
  unfolding map_at change_map
  map_at-change_map f m a [] less = absurd (omega (arith, less))
  map_at-change_map f zero zero (es ∷ h) less = refl
  map_at-change_map f zero (suc a) (es ∷ h) less = ground arith
  map_at-change_map f (suc m) zero (es ∷ h) less = ground arith
  map_at-change_map f (suc m) (suc a) (es ∷ h) less =
      ground (arith, map_at-change_map f m a h (omega (arith, less)))

  -- What an entry is behind an assignment, from what it was before.
  abbrev pub written : Token.Kind → Option (Value F) → Value F → Option (Value F)
  written Token.assign old v = some v
  written Token.q_assign none v = some v
  written Token.q_assign (some w) v = some w
  written Token.plus_assign none v = some (list_val (value_then v no_values))
  written Token.plus_assign (some (list_val vs)) v =
      some (list_val (append_values vs (value_then v no_values)))
  written Token.plus_assign (some w) v = some (list_val (value_then w (value_then v no_values)))
  written _ old v = old

  same_entry :
      (k q : Str) (es : List (Str × Value F))
      → map_get q es ≡ (if q == k then map_get k es else map_get q es)
  same_entry k q es = elim (Bool-cases (q == k)) [
    | inl on ↦ rw on (ap (λ x. map_get x es) ((eq_iff q k).0 on))
    | inr off ↦ rw off refl
  ]

  bound_or_not :
      (k q : Str) (v : Value F) (es : List (Str × Value F)) (old : Option (Value F))
      → map_get k es ≡ old
      → map_get q (if is_bound old then es else map_set k v es)
        ≡ (if q == k then written Token.q_assign old v else map_get q es)
  bound_or_not k q v es none e = map_get-map_set k q v es
  bound_or_not k q v es (some w) e =
      same_entry k q es ∙ ap (λ x. if q == k then x else map_get q es) e

  grown_value :
      (old : Option (Value F)) (v : Value F) → some (grown old v) ≡ written Token.plus_assign old v
  grown_value none v = refl
  grown_value (some (list_val vs)) v = refl
  grown_value (some _) v = refl

  map_get-entry_by :
      (op : Token.Kind) (k q : Str) (v : Value F) (es : List (Str × Value F))
      → map_get q (entry_by op k v es)
        ≡ (if q == k then written op (map_get k es) v else map_get q es)
  unfolding entry_by
  map_get-entry_by Token.assign k q v es = map_get-map_set k q v es
  map_get-entry_by Token.q_assign k q v es = bound_or_not k q v es (map_get k es) refl
  map_get-entry_by Token.plus_assign k q v es =
      map_get-map_set k q (grown (map_get k es) v) es
      ∙ ap (λ x. if q == k then x else map_get q es) (grown_value (map_get k es) v)
  map_get-entry_by _ k q v es = same_entry k q es

  -- Every key of every map, behind an assignment to the key `k` of the map `m`.
  pub map_get-change_map :
      (op : Token.Kind) (m : ℕ) (k : Str) (v : Value F) (h : Heap F) (a : ℕ) (q : Str)
      → m < length h
      → map_get q (map_at a (change_map m (entry_by op k v) h)) ≡ (
          if a == m && q == k
          then written op (map_get k (map_at m h)) v
          else map_get q (map_at a h))
  map_get-change_map op m k v h a q less =
      ap (map_get q) (map_at-change_map (entry_by op k v) m a h less)
      ∙ (elim (Bool-cases (a == m)) [
        | inl on ↦
            let same = (eq_iff a m).0 on in
            rw on (
              map_get-entry_by op k q v (map_at a h)
              ∙ ap
                  (λ x.
                    if q == k
                    then written op (map_get k (map_at x h)) v
                    else map_get q (map_at a h))
                  same)
        | inr off ↦ rw off refl
      ])
