-- ===== src/Eval/Methods.antt =====
-- internal/eval: the methods of maps, ranges, texts and lists in value.go, and the index into a value in
-- eval.go. What the texts' methods take from the libraries is a parameter; the file system answers by the
-- state `w` of the world.
mod Split
mod Tests
use cgpipe.Prelude.{
  ℕ, zero, suc, ◌+◌, ◌-◌, List, [], ◌∷◌, ◌++◌, Bool, true, false, not, ◌&&◌, ◌||◌, Option, none,
  some, nat_eq, list_eq, if◌then◌else◌, leb, ltb, ◌==◌, length,
}
use cgpipe.Text.{Str, codes, join, has_prefix, contains_text}
use cgpipe.Exec.{Result, ok, err}
use cgpipe.Eval.Range
use cgpipe.Eval.Range.{ℤ, pos, negsuc, Range, from_end, range_index, clamp_index}
use cgpipe.Eval.Value.{
  Floats, Value, int_val, float_val, str_val, bool_val, list_val, range_val, unset_val, file_val,
  map_val, Values, no_values, value_then, Heap, Fault, cannot_index, cannot_slice, map_index,
  bad_regex, out_of_range, no_method, no_keywords, wrong_arguments, join_of_no_list, no_path,
  then_do, range_items, type_name, map_get, map_nth, map_at, map_keys, values_length, int_values,
  str_list, as_list, texts_of, map_text, stringify,
}
use cgpipe.Eval.Operators.{to_int}

-- strings, filepath, regexp and os as the methods of a text call them.
pub record TextLibrary (W : Type 0) : Type 0 where
  pub to_upper : Str → Str
  pub to_lower : Str → Str
  pub base : Str → Str
  pub dir : Str → Str
  pub abs : Str → Option Str
  pub exists : W → Str → Bool
  pub is_file : W → Str → Bool
  pub is_dir : W → Str → Bool
  -- The text with the matches of a pattern replaced, `none` for a bad pattern.
  pub replace : Str → Str → Str → Option Str
  -- The runes that `range` yields, as texts.
  pub runes : Str → List Str

-- strings.Split(s, sep) for a separator that is not empty; the number counts the bytes of a separator that
-- are still to be skipped.
abbrev onto_part : ℕ → List Str → List Str
onto_part c [] = (c ∷ []) ∷ []
onto_part c (p ∷ ps) = (c ∷ p) ∷ ps

unfoldable pub split_from : ℕ → Str → Str → List Str
unfolding has_prefix
split_from skip sep [] = [] ∷ []
split_from (suc skip) sep (c ∷ s) = split_from skip sep s
split_from zero sep (c ∷ s) =
    let next = split_from (length sep - 1) sep s in
    let on = split_from zero sep s in if has_prefix (c ∷ s) sep then [] ∷ next else onto_part c on

-- A place in `n` items, from the front or from the back.
abbrev pub place_in : ℕ → ℤ → Option ℕ
place_in n (pos i) = if ltb i n then some i else none
place_in n (negsuc i) = none

module _ {F : Type 0} where
  abbrev pub refuse_kwargs :
      Str → Str → List (Str × Value F) → Result Fault (Value F) → Result Fault (Value F)
  refuse_kwargs type name [] result = result
  refuse_kwargs type name (k ∷ ks) result = err (no_keywords type name)

  abbrev pub map_values : List (Str × Value F) → Values F
  map_values [] = no_values
  map_values ((k, v) ∷ es) = value_then v (map_values es)

  abbrev pub map_items : List (Str × Value F) → Values F
  map_items [] = no_values
  map_items ((k, v) ∷ es) =
      value_then (list_val (value_then (str_val k) (value_then v no_values))) (map_items es)

  abbrev pub or_default : Value F → Option (Value F) → Value F
  or_default default none = default
  or_default default (some v) = v

  unfoldable pub entry_place : List (Str × Value F) → ℤ → Option (Value F)
  unfolding map_nth
  entry_place es i = elim (place_in (length es) (from_end i (pos (length es)))) [
    | none ↦ none
    | some n ↦ map_nth n es
  ]

  unfoldable pub values_nth : ℕ → Values F → Option (Value F)
  values_nth n no_values = none
  values_nth zero (value_then v vs) = some v
  values_nth (suc n) (value_then v vs) = values_nth n vs

  unfoldable pub value_place : Values F → ℤ → Option (Value F)
  unfolding values_nth
  value_place vs i = elim (place_in (values_length vs) (from_end i (pos (values_length vs)))) [
    | none ↦ none
    | some n ↦ values_nth n vs
  ]

  -- items[from:to]
  unfoldable pub values_slice : ℕ → ℕ → Values F → Values F
  values_slice from to no_values = no_values
  values_slice from zero (value_then v vs) = no_values
  values_slice zero (suc to) (value_then v vs) = value_then v (values_slice zero to vs)
  values_slice (suc from) (suc to) (value_then v vs) = values_slice from to vs

  abbrev pub one_argument :
      Str → Str → (Value F → Result Fault (Value F)) → List (Value F) → Result Fault (Value F)
  one_argument type name f (v ∷ []) = f v
  one_argument type name f _ = err (wrong_arguments type name)

module _ {F : Type 0} ⦃floats : Floats F⦄ (h : Heap F) where
  -- joinValues
  unfoldable pub join_values : Values F → Str → Result Fault Str
  unfolding texts_of map_text join
  join_values items sep =
      then_do (texts_of (map_text (suc (length h)) h) items) λ parts. ok (join parts sep)

  abbrev pub map_lookup : List (Str × Value F) → Value F → Value F → Result Fault (Value F)
  map_lookup es default (int_val i) = ok (or_default default (entry_place es i))
  map_lookup es default key = then_do (stringify h key) λ k. ok (or_default default (map_get k es))

  abbrev pub map_get_method : List (Str × Value F) → List (Value F) → Result Fault (Value F)
  map_get_method es (key ∷ []) = map_lookup es unset_val key
  map_get_method es (key ∷ default ∷ []) = map_lookup es default key
  map_get_method es _ = err (wrong_arguments (codes "map") (codes "get"))

  abbrev pub is_there : Option (Value F) → Bool
  is_there none = false
  is_there (some v) = true

  unfoldable pub map_method : List (Str × Value F) → Str → List (Value F) → Result Fault (Value F)
  unfolding stringify map_get entry_place
  map_method es name args =
      if name == codes "type"
      then ok (str_val (codes "map"))
      else if name == codes "length"
      then ok (int_val (pos (length es)))
      else if name == codes "keys"
      then ok (list_val (map_keys es))
      else if name == codes "values"
      then ok (list_val (map_values es))
      else if name == codes "items"
      then ok (list_val (map_items es))
      else if name == codes "has"
      then one_argument (codes "map") name
          (λ v. then_do (stringify h v) λ k. ok (bool_val (is_there (map_get k es)))) args
      else if name == codes "get"
      then map_get_method es args
      else err (no_method (codes "map") name)

  unfoldable pub any_text : Str → Values F → Result Fault Bool
  unfolding stringify
  any_text target no_values = ok false
  any_text target (value_then v vs) =
      let rest = any_text target vs in
      then_do (stringify h v) λ s. if s == target then ok true else rest

  unfoldable pub list_method : Values F → Str → List (Value F) → Result Fault (Value F)
  unfolding stringify any_text join_values
  list_method items name args =
      if name == codes "type"
      then ok (str_val (codes "list"))
      else if name == codes "length"
      then ok (int_val (pos (values_length items)))
      else if name == codes "contains"
      then one_argument (codes "list") name
          (λ v.
            then_do (stringify h v) λ target. then_do (any_text target items) λ b. ok (bool_val b))
          args
      else if name == codes "join"
      then one_argument (codes "list") name
          (λ v. then_do (stringify h v) λ sep. then_do (join_values items sep) λ s. ok (str_val s))
          args
      else err (no_method (codes "list") name)

  abbrev pub range_contains : Range → Value F → Value F
  range_contains r (int_val x) = bool_val (Range.contains r x)
  range_contains r _ = bool_val false

  unfoldable pub range_method : Range → Str → List (Value F) → Result Fault (Value F)
  unfolding Range.count Range.contains range_items list_method
  range_method r name args =
      if name == codes "type"
      then ok (str_val (codes "range"))
      else if name == codes "length"
      then ok (int_val (Range.count r))
      else if name == codes "contains"
      then one_argument (codes "range") name (λ v. ok (range_contains r v)) args
      else then_do (range_items r) λ is. list_method (int_values is) name args

  abbrev pub joined_list : Str → Option (Values F) → Result Fault (Value F)
  joined_list sep none = err join_of_no_list
  joined_list sep (some items) = then_do (join_values items sep) λ s. ok (str_val s)

  module _ {W : Type 0} (lib : TextLibrary W) (w : W) where
    abbrev pub split_parts : Str → Str → List Str
    split_parts s [] = lib.runes s
    split_parts s (c ∷ sep) = split_from 0 (c ∷ sep) s

    abbrev pub split_method : Str → List (Value F) → Result Fault (Value F)
    split_method s (v ∷ []) =
        then_do (stringify h v) λ sep. ok (list_val (str_list (split_parts s sep)))
    split_method s _ = ok (list_val (str_list (split_parts s [])))

    abbrev pub replaced : Str → Option Str → Result Fault (Value F)
    replaced pattern none = err (bad_regex pattern)
    replaced pattern (some t) = ok (str_val t)

    abbrev pub sub_method : Str → List (Value F) → Result Fault (Value F)
    sub_method s (pattern ∷ by ∷ []) =
        then_do (stringify h pattern)
          λ p. then_do (stringify h by) λ t. replaced p (lib.replace s p t)
    sub_method s _ = err (wrong_arguments (codes "string") (codes "sub"))

    abbrev pub absolute_path : Option Str → Result Fault (Value F)
    absolute_path none = err no_path
    absolute_path (some p) = ok (str_val p)

    unfoldable pub string_method : Str → Str → List (Value F) → Result Fault (Value F)
    unfolding stringify as_list split_from contains_text join_values
    string_method s name args =
        if name == codes "type"
        then ok (str_val (codes "string"))
        else if name == codes "upper"
        then ok (str_val (lib.to_upper s))
        else if name == codes "lower"
        then ok (str_val (lib.to_lower s))
        else if name == codes "length"
        then ok (int_val (pos (length s)))
        else if name == codes "basename"
        then ok (str_val (lib.base s))
        else if name == codes "dirname"
        then ok (str_val (lib.dir s))
        else if name == codes "abspath"
        then absolute_path (lib.abs s)
        else if name == codes "exists"
        then ok (bool_val (lib.exists w s))
        else if name == codes "isfile"
        then ok (bool_val (lib.is_file w s))
        else if name == codes "isdir"
        then ok (bool_val (lib.is_dir w s))
        else if name == codes "contains"
        then one_argument (codes "string") name
            (λ v. then_do (stringify h v) λ t. ok (bool_val (contains_text s t))) args
        else if name == codes "split"
        then split_method s args
        else if name == codes "sub"
        then sub_method s args
        else if name == codes "join"
        then one_argument (codes "string") name
            (λ v. then_do (as_list h v) λ items. joined_list s items) args
        else err (no_method (codes "string") name)

    abbrev pub item_or_fault : ℤ → ℕ → Option (Value F) → Result Fault (Value F)
    item_or_fault i n none = err (out_of_range i (pos n))
    item_or_fault i n (some v) = ok v

    abbrev pub ranged : ℤ → ℤ → Option ℤ → Result Fault (Value F)
    ranged i n none = err (out_of_range i n)
    ranged i n (some v) = ok (int_val v)

    abbrev pub map_index_of : List (Str × Value F) → Value F → Result Fault (Value F)
    map_index_of es (str_val k) = ok (or_default unset_val (map_get k es))
    map_index_of es (int_val i) = item_or_fault i (length es) (entry_place es i)
    map_index_of es v = err (map_index (type_name v))

    -- evalIndex, at the values of the receiver and of the index
    unfoldable pub index_value : Value F → Value F → Result Fault (Value F)
    unfolding map_get entry_place map_at Range.count range_index value_place
    index_value (map_val m) idx = map_index_of (map_at m h) idx
    index_value (range_val r) idx = ranged (to_int idx) (Range.count r) (range_index r (to_int idx))
    index_value (list_val vs) idx =
        item_or_fault (to_int idx) (values_length vs) (value_place vs (to_int idx))
    index_value (str_val s) idx =
        let vs = str_list (lib.runes s) in
        item_or_fault (to_int idx) (values_length vs) (value_place vs (to_int idx))
    index_value v idx = err (cannot_index (type_name v))
