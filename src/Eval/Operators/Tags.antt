-- ===== src/Eval/Operators/Tags.antt =====
-- The types of what the operators return.
use cgpipe.Prelude.{ℕ, Option, none, some, ◌≡◌}
use cgpipe.Text.{Str}
use cgpipe.Exec.{Result, ok, err}
use cgpipe.Syntax.Token
use cgpipe.Eval.Range.{int_eq, Range}
use cgpipe.Eval.Value.{
  Floats, Value, int_val, float_val, str_val, bool_val, list_val, range_val, unset_val, file_val,
  map_val, Values, no_values, value_then, Fault, endless, unset_use, division_by_zero, bad_repeat,
  cannot_apply, then_do, or_endless, range_items, text_of, texts_of,
}

pub data Tag : Type 0 where
  int float text boolean list range unset file dict : Tag

abbrev pub tag_of : {F : Type 0} → Value F → Tag
tag_of (int_val n) = int
tag_of (float_val x) = float
tag_of (str_val s) = text
tag_of (bool_val b) = boolean
tag_of (list_val vs) = list
tag_of (range_val r) = range
tag_of unset_val = unset
tag_of (file_val path mode h) = file
tag_of (map_val es) = dict

-- The type of the numbers that an operator makes of numbers of the type `t`.
abbrev pub number_tag : Token.Kind → Tag → Option Tag
number_tag Token.plus t = some t
number_tag Token.minus t = some t
number_tag Token.star t = some t
number_tag Token.slash t = some t
number_tag Token.pow t = some t
number_tag Token.percent t = some int
number_tag Token.lt t = some boolean
number_tag Token.le t = some boolean
number_tag Token.gt t = some boolean
number_tag Token.ge t = some boolean
number_tag _ t = none

abbrev pub numbers_tag : Token.Kind → Tag → Tag → Option Tag
numbers_tag op int int = number_tag op int
numbers_tag op int float = number_tag op float
numbers_tag op float int = number_tag op float
numbers_tag op float float = number_tag op float
numbers_tag op _ _ = none

abbrev pub joined_tag : Token.Kind → Tag → Tag → Option Tag
joined_tag Token.plus text t = some text
joined_tag Token.star text t = some text
joined_tag Token.plus list t = some list
joined_tag Token.star list t = some list
joined_tag op s t = numbers_tag op s t

abbrev pub set_tag : Token.Kind → Tag → Tag → Option Tag
set_tag op unset t = none
set_tag op s unset = none
set_tag op s t = joined_tag op s t

-- The type of a result, by the types of the operands; `none` where the operator is not for these.
abbrev pub result_tag : Token.Kind → Tag → Tag → Option Tag
result_tag Token.eq s t = some boolean
result_tag Token.neq s t = some boolean
result_tag op s t = set_tag op s t

-- A text or an equality that does not come to an end: of a map that holds itself, or of a range
-- whose numbers cannot be listed.
abbrev pub IsEndless : Fault → Type 0
IsEndless endless = Unit
IsEndless _ = ⊥

abbrev pub IsDivision : Fault → Type 0
IsDivision division_by_zero = Unit
IsDivision _ = ⊥

abbrev pub IsBadRepeat : Fault → Type 0
IsBadRepeat bad_repeat = Unit
IsBadRepeat _ = ⊥

-- What may go wrong with operands of the right types, by the operator.
abbrev pub MayFail : Token.Kind → Fault → Type 0
MayFail Token.eq e = IsEndless e
MayFail Token.neq e = IsEndless e
MayFail Token.plus e = IsEndless e
MayFail Token.slash e = IsDivision e
MayFail Token.percent e = IsDivision e
MayFail Token.star e = IsBadRepeat e
MayFail _ e = ⊥

abbrev pub IsMismatch : Fault → Type 0
IsMismatch unset_use = Unit
IsMismatch (cannot_apply op l r) = Unit
IsMismatch _ = ⊥

-- A result of the type that is told, or an error of its kind.
abbrev pub HasTag : {F : Type 0} → Token.Kind → Option Tag → Result Fault (Value F) → Type 0
HasTag op (some t) (ok v) = tag_of v ≡ t
HasTag op (some t) (err e) = MayFail op e
HasTag op none (ok v) = ⊥
HasTag op none (err e) = IsMismatch e

abbrev Quiet : {A : Type 0} → Result Fault A → Type 0
Quiet (ok a) = Unit
Quiet (err e) = IsEndless e

then_do-Quiet :
    {A B : Type 0} (x : Result Fault A) (f : A → Result Fault B)
    → Quiet x
    → ((a : A) → Quiet (f a))
    → Quiet (then_do x f)
then_do-Quiet (ok a) f h k = k a
then_do-Quiet (err e) f h k = h

or_endless-Quiet : {A : Type 0} (x : Option A) → Quiet (or_endless x)
or_endless-Quiet none = tt
or_endless-Quiet (some a) = tt

range_items-Quiet : (r : Range) → Quiet (range_items r)
unfolding range_items
range_items-Quiet r = or_endless-Quiet _

module _ {F : Type 0} ⦃floats : Floats F⦄ where
  mutual
    unfolding text_of

    text_of-Quiet :
        (shown : ℕ → Result Fault Str)
        → ((m : ℕ) → Quiet (shown m))
        → (v : Value F) → Quiet (text_of shown v)
    text_of-Quiet shown k (int_val n) = tt
    text_of-Quiet shown k (float_val x) = tt
    text_of-Quiet shown k (str_val s) = tt
    text_of-Quiet shown k (bool_val b) = tt
    text_of-Quiet shown k (list_val vs) =
        then_do-Quiet (texts_of shown vs) _ (texts_of-Quiet shown k vs) λ _. tt
    text_of-Quiet shown k (range_val r) =
        then_do-Quiet (range_items r) _ (range_items-Quiet r) λ _. tt
    text_of-Quiet shown k unset_val = tt
    text_of-Quiet shown k (file_val path mode h) = tt
    text_of-Quiet shown k (map_val m) = k m

    texts_of-Quiet :
        (shown : ℕ → Result Fault Str)
        → ((m : ℕ) → Quiet (shown m))
        → (vs : Values F) → Quiet (texts_of shown vs)
    texts_of-Quiet shown k no_values = tt
    texts_of-Quiet shown k (value_then v vs) =
        then_do-Quiet (text_of shown v) _ (text_of-Quiet shown k v)
          λ _. then_do-Quiet (texts_of shown vs) _ (texts_of-Quiet shown k vs) λ _. tt
