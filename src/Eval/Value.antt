-- ===== src/Eval/Value.antt =====
-- internal/eval/value.go: values, how they are written, what is true, and the lists that they stand for.
-- A map is a reference to its entries, which are in a heap, in their order. A float64 is of a type that is
-- a parameter, with the operations that the code calls. The entries of a map may refer to maps in turn:
-- writing a value goes through as many maps as the heap has, and one that goes on is in a cycle.
mod Numbers
mod Tests
use cgpipe.Prelude.{
  ℕ, zero, suc, ◌+◌, ◌-◌, ◌/◌, ◌%◌, List, [], ◌∷◌, ◌++◌, Bool, true, false, not, Option, none, some,
  nat_eq, list_eq, if◌then◌else◌, leb, ltb, ◌==◌, length, map,
}
use cgpipe.Text.{Str, codes, join}
use cgpipe.Eval.Range
use cgpipe.Exec.{Result, ok, err}
use cgpipe.Syntax.Token
use cgpipe.Syntax.Parser.{digits_from}
use cgpipe.Eval.Range.{ℤ, pos, negsuc, int_eq, pos_part, neg_part, two_63, Range, le_64}

-- The float64s.
pub record Floats (F : Type 0) : Type 0 where
  pub of_int : ℤ → F
  pub truncate : F → ℤ
  pub opposite : F → F
  pub plus : F → F → F
  pub minus : F → F → F
  pub times : F → F → F
  pub divided : F → F → F
  pub power : F → F → F
  pub less : F → F → Bool
  pub at_most : F → F → Bool
  pub equal : F → F → Bool
  pub format : F → Str
  pub parse : Str → Option F

mutual
  pub data Value (F : Type 0) : Type 0 where
    int_val : ℤ → Value F
    float_val : F → Value F
    str_val : Str → Value F
    bool_val : Bool → Value F
    list_val : Values F → Value F
    range_val : Range → Value F
    unset_val : Value F
    -- The path, the mode, and the write handle.
    file_val : Str → Str → Option ℕ → Value F
    -- The place of the map in the heap.
    map_val : ℕ → Value F

  pub data Values (F : Type 0) : Type 0 where
    no_values : Values F
    value_then : Value F → Values F → Values F

-- The maps with their entries, in the order in which these were added.
abbrev pub Heap : Type 0 → Type 0
Heap F = List (List (Str × Value F))

-- What goes wrong with values. `endless` is a loop of `slice`, or a walk through a map, that never ends, and `bad_repeat` a panic
-- of strings.Repeat.
pub data Fault : Type 0 where
  endless unset_use division_by_zero bad_repeat bad_operator : Fault
  cannot_apply : Token.Kind → Str → Str → Fault
  cannot_negate cannot_index cannot_slice map_key map_index bad_regex : Str → Fault
  out_of_range : ℤ → ℤ → Fault
  no_method no_keywords wrong_arguments : Str → Str → Fault
  join_of_no_list : Fault
  no_path : Fault

abbrev pub then_do {ℓ κ} :
    {A : Type ℓ} {B : Type κ} → Result Fault A → (A → Result Fault B) → Result Fault B
then_do (ok a) f = f a
then_do (err e) f = err e

abbrev pub or_endless {ℓ} : {A : Type ℓ} → Option A → Result Fault A
or_endless none = err endless
or_endless (some a) = ok a

-- The turns that the loop of `slice` has, where it ends.
abbrev pub turns : Range → ℕ
turns r =
    let up = pos_part r.hi + neg_part r.lo in
    let down = pos_part r.lo + neg_part r.hi in suc (suc ((up - down) + (down - up)))

unfoldable pub range_items : Range → Result Fault (List ℤ)
unfolding Range.slice
range_items r = or_endless (Range.slice (turns r) r)

-- strconv.FormatInt(n, 10)
unfoldable pub digits_onto : ℕ → ℕ → Str → Str
digits_onto zero n s = s
digits_onto (suc fuel) n s =
    let more = digits_onto fuel (n / 10) ((48 + n % 10) ∷ s) in
    if ltb n 10 then (48 + n) ∷ s else more

unfoldable pub format_int : ℤ → Str
unfolding digits_onto
format_int (pos n) = digits_onto (suc n) n []
format_int (negsuc n) = b'-' ∷ digits_onto (suc (suc n)) (suc n) []

-- strconv.ParseInt(s, 10, 64)
abbrev pub signed : Bool → Option ℕ → Option ℤ
signed minus none = none
signed false (some n) = if ltb n two_63 then some (pos n) else none
signed true (some n) =
    if n == 0 then some (pos 0) else if leb n two_63 then some (negsuc (n - 1)) else none

abbrev pub digits_of : Str → Option ℕ
digits_of [] = none
digits_of (c ∷ s) = digits_from 0 (c ∷ s)

unfoldable pub parse_int_64 : Str → Option ℤ
parse_int_64 [] = none
parse_int_64 (c ∷ s) =
    if c == b'-'
    then signed true (digits_of s)
    else if c == b'+'
    then signed false (digits_of s)
    else signed false (digits_of (c ∷ s))

module _ {F : Type 0} where
  -- typeName
  abbrev pub type_name : Value F → Str
  type_name (int_val n) = codes "int"
  type_name (float_val x) = codes "float"
  type_name (str_val s) = codes "string"
  type_name (bool_val b) = codes "bool"
  type_name (list_val vs) = codes "list"
  type_name (range_val r) = codes "range"
  type_name unset_val = codes "unset"
  type_name (file_val path mode h) = codes "file"
  type_name (map_val es) = codes "map"

  -- set of a map, which keeps the place of a key that is there
  unfoldable pub map_set : Str → Value F → List (Str × Value F) → List (Str × Value F)
  map_set k v [] = (k, v) ∷ []
  map_set k v ((l, w) ∷ es) =
      let rest = map_set k v es in if k == l then (l, v) ∷ es else (l, w) ∷ rest

  unfoldable pub map_get : Str → List (Str × Value F) → Option (Value F)
  map_get k [] = none
  map_get k ((l, w) ∷ es) = let rest = map_get k es in if k == l then some w else rest

  unfoldable pub map_nth : ℕ → List (Str × Value F) → Option (Value F)
  map_nth n [] = none
  map_nth zero ((l, w) ∷ es) = some w
  map_nth (suc n) ((l, w) ∷ es) = map_nth n es

  unfoldable pub map_at : ℕ → Heap F → List (Str × Value F)
  map_at n [] = []
  map_at zero (m ∷ h) = m
  map_at (suc n) (m ∷ h) = map_at n h

  abbrev pub map_keys : List (Str × Value F) → Values F
  map_keys [] = no_values
  map_keys ((l, w) ∷ es) = value_then (str_val l) (map_keys es)

  abbrev pub values_length : Values F → ℕ
  values_length no_values = 0
  values_length (value_then v vs) = suc (values_length vs)

  unfoldable pub append_values : Values F → Values F → Values F
  append_values no_values ws = ws
  append_values (value_then v vs) ws = value_then v (append_values vs ws)

  abbrev pub int_values : List ℤ → Values F
  int_values [] = no_values
  int_values (i ∷ is) = value_then (int_val i) (int_values is)

  -- StrList
  abbrev pub str_list : List Str → Values F
  str_list [] = no_values
  str_list (s ∷ ss) = value_then (str_val s) (str_list ss)

  -- asList, with `none` for false
  unfoldable pub as_list : Heap F → Value F → Result Fault (Option (Values F))
  unfolding range_items map_at
  as_list h (list_val vs) = ok (some vs)
  as_list h (range_val r) = then_do (range_items r) λ is. ok (some (int_values is))
  as_list h (map_val m) = ok (some (map_keys (map_at m h)))
  as_list h _ = ok none

abbrev pub bool_text : Bool → Str
bool_text true = codes "true"
bool_text false = codes "false"

abbrev pub not_empty : Str → Bool
not_empty [] = false
not_empty (c ∷ s) = true

module _ {F : Type 0} ⦃floats : Floats F⦄ where
  -- stringify, with the text of the map at a place
  unfoldable mutual
    unfolding range_items format_int join

    pub text_of : (ℕ → Result Fault Str) → Value F → Result Fault Str
    text_of shown (int_val n) = ok (format_int n)
    text_of shown (float_val x) = ok (floats.format x)
    text_of shown (str_val s) = ok s
    text_of shown (bool_val b) = ok (bool_text b)
    text_of shown (list_val vs) = then_do (texts_of shown vs) λ parts. ok (join parts (codes " "))
    text_of shown (range_val r) =
        then_do (range_items r) λ is. ok (join (map format_int is) (codes " "))
    text_of shown unset_val = ok []
    text_of shown (file_val path mode h) = ok path
    text_of shown (map_val m) = shown m

    pub texts_of : (ℕ → Result Fault Str) → Values F → Result Fault (List Str)
    texts_of shown no_values = ok []
    texts_of shown (value_then v vs) =
        then_do (text_of shown v) λ s. then_do (texts_of shown vs) λ ss. ok (s ∷ ss)

  unfoldable pub entry_texts :
      (ℕ → Result Fault Str) → List (Str × Value F) → Result Fault (List Str)
  unfolding text_of
  entry_texts shown [] = ok []
  entry_texts shown ((k, v) ∷ es) =
      then_do (text_of shown v)
        λ s. then_do (entry_texts shown es) λ ss. ok ((k ++ (b'=' ∷ s)) ∷ ss)

  unfoldable pub map_text : ℕ → Heap F → ℕ → Result Fault Str
  unfolding map_at entry_texts join
  map_text zero h m = err endless
  map_text (suc depth) h m =
      then_do (entry_texts (map_text depth h) (map_at m h)) λ parts. ok (join parts (codes " "))

  unfoldable pub stringify : Heap F → Value F → Result Fault Str
  unfolding text_of map_text
  stringify h v = text_of (map_text (suc (length h)) h) v

  unfoldable pub truthy : Heap F → Value F → Bool
  unfolding Range.count map_at
  truthy h (bool_val b) = b
  truthy h (int_val n) = not (n == pos 0)
  truthy h (float_val x) = not (floats.equal x (floats.of_int (pos 0)))
  truthy h (str_val s) = not_empty s
  truthy h (list_val vs) = ltb 0 (values_length vs)
  truthy h (range_val r) = le_64 (pos 1) (Range.count r)
  truthy h (map_val m) = ltb 0 (length (map_at m h))
  truthy h unset_val = false
  truthy h (file_val path mode w) = true

  abbrev pub scalar_of : Option ℤ → Option F → Str → Value F
  scalar_of (some n) x s = int_val n
  scalar_of none (some x) s = float_val x
  scalar_of none none s = str_val s

  -- ParseScalar
  unfoldable pub parse_scalar : Str → Value F
  unfolding parse_int_64
  parse_scalar s =
      if s == codes "true"
      then bool_val true
      else if s == codes "false"
      then bool_val false
      else scalar_of (parse_int_64 s) (floats.parse s) s
