-- ===== src/Eval/Interp.antt =====
-- internal/eval/eval.go: the interpreter's state, its errors, and the value of an expression. What the
-- interpreter takes from the templates of interp.go, from the built-in functions and from the methods of
-- files is a parameter. The frames of the scope stand with the write handles that they own.
pub mod Kept
use mathlib.Core.Option
use cgpipe.Prelude.{
  ℕ, zero, suc, ◌+◌, ◌-◌, List, [], ◌∷◌, ◌++◌, Bool, true, false, not, ◌&&◌, ◌||◌, Option, none,
  some, nat_eq, list_eq, if◌then◌else◌, ltb, ◌==◌, length,
}
use cgpipe.Text.{Str, codes}
use cgpipe.Exec.{Result, ok, err, Exec, pure, fail, gets, modify, ◌>>=◌, ◌>>◌}
use cgpipe.Syntax.Token
use cgpipe.Syntax.Token.{kind_eq}
use cgpipe.Syntax.Cursor.{Failure}
use cgpipe.Syntax.Ast.{
  Expr, int_lit, float_lit, string_lit, ident, bool_lit, list_lit, range_lit, index, slice, call,
  map_lit, unary, binary, Operand, absent, present, Exprs, no_exprs, expr_then, KwArgs, no_kwargs,
  kwarg_then, Entries, no_entries, entry_then,
}
use cgpipe.Eval.Range.{ℤ, pos, negsuc, pos_part, clamp_index}
use cgpipe.Eval.Scope
use cgpipe.Eval.Value.{
  Floats, Value, int_val, float_val, str_val, bool_val, list_val, range_val, unset_val, file_val,
  map_val, Values, no_values, value_then, Heap, Fault, cannot_slice, no_method, map_key, then_do,
  type_name, map_set, map_at, values_length, as_list, truthy,
}
use cgpipe.Eval.Operators.{to_int, apply_binary, apply_unary}
use cgpipe.Eval.Methods
use cgpipe.Eval.Methods.{
  TextLibrary, values_slice, map_method, list_method, range_method, string_method, index_value,
}

-- Target, with the scope at its definition
pub record TargetDecl (F : Type 0) : Type 0 where
  pub pos : Token.Pos
  pub special : Str
  pub outputs : List Str
  pub temp : List Str
  pub inputs : List Str
  pub body : Option Str
  pub scope : List (List (Str × Value F))

-- Program, without the final scope and the mark of a dry run
pub record Program (F : Type 0) : Type 0 where
  pub targets : List (TargetDecl F)
  pub default_goals : List Str
  pub first_output : Str
  pub pre : Option (TargetDecl F)
  pub post : Option (TargetDecl F)
  pub setup : Option (TargetDecl F)
  pub teardown : Option (TargetDecl F)
  pub postsubmit : Option (TargetDecl F)
  pub snippets : List (Str × Str)
  pub help : Str
  pub stages : List (Str × Str × List Str)
  pub exports : List (Str × Value F)

-- interp: `owned` has the write handles that a frame has taken, and `closed` those that were closed.
pub record Interp (F W : Type 0) : Type 0 where
  pub dir : Str
  pub scope : List (List (Str × Value F))
  pub handles : List (List ℕ)
  pub owned : List ℕ
  pub closed : List ℕ
  pub heap : Heap F
  pub out : List Str
  pub program : Program F
  pub including : List Str
  pub world : W

pub data RunError : Type 0 where
  plain : Fault → RunError
  at_place : Token.Pos → Fault → RunError
  not_parsed : Failure → RunError
  exit_error : ℤ → RunError
  include_cycle not_read : Token.Pos → Str → RunError
  no_iteration no_string_key no_index_assign : Token.Pos → Str → RunError
  too_many_turns no_named_target : Token.Pos → RunError
  from_outside : Str → RunError
  out_of_fuel : RunError

abbrev pub Run : Type 0 → Type 0 → Type 0 → Type 0
Run F W A = Exec (Interp F W) RunError A

-- The parts that are not modelled: `interpolate` and `expandTemplate` of a text, callBuiltin, fileMethod.
pub record Outside (F W : Type 0) : Type 0 where
  pub interpolate : Str → Run F W Str
  pub expand_template : Str → Run F W (List Str)
  pub call_builtin : Str → List (Value F) → List (Str × Value F) → Run F W (Value F)
  pub file_method : Value F → Str → List (Value F) → List (Str × Value F) → Run F W (Value F)
  pub library : TextLibrary W

module _ {F : Type 0} where
  abbrev pub list_of : List (Value F) → Values F
  list_of [] = no_values
  list_of (v ∷ vs) = value_then v (list_of vs)

  abbrev pub or_unset : Option (Value F) → Value F
  or_unset none = unset_val
  or_unset (some v) = v

module _ {F W : Type 0} where
  abbrev pub at_pos {ℓ} : {A : Type ℓ} → Token.Pos → Result Fault A → Exec (Interp F W) RunError A
  at_pos p (ok a) = pure a
  at_pos p (err e) = fail (at_place p e)

  abbrev pub lift_plain {ℓ} : {A : Type ℓ} → Result Fault A → Exec (Interp F W) RunError A
  lift_plain (ok a) = pure a
  lift_plain (err e) = fail (plain e)

  abbrev pub string_key : Token.Pos → Value F → Run F W Str
  string_key p (str_val k) = pure k
  string_key p v = fail (at_place p (map_key (type_name v)))

  -- The place of a new map with these entries.
  unfoldable pub new_map : List (Str × Value F) → Run F W ℕ
  unfolding ◌>>=◌ gets modify pure
  new_map es = do
    n ← gets (λ s. length s.heap)
    modify (λ s. record s { heap = s.heap ++ (es ∷ []) })
    pure n

  abbrev pub items_or_fault : Token.Pos → Value F → Option (Values F) → Run F W (Values F)
  items_or_fault p v none = fail (at_place p (cannot_slice (type_name v)))
  items_or_fault p v (some items) = pure items

module _ {F W : Type 0} ⦃floats : Floats F⦄ (outside : Outside F W) where
  abbrev pub float_or_zero : Option F → F
  float_or_zero none = floats.of_int (pos 0)
  float_or_zero (some x) = x

  -- callMethod
  unfoldable pub call_method :
      Token.Pos → Value F → Str → List (Value F) → List (Str × Value F) → Run F W (Value F)
  unfolding ◌>>=◌ gets pure fail map_at map_method list_method range_method string_method
  call_method p (file_val path mode w) name args kwargs =
      outside.file_method (file_val path mode w) name args kwargs
  call_method p (map_val m) name args kwargs = do
    h ← gets (λ s. s.heap)
    at_pos p (Methods.refuse_kwargs (codes "map") name kwargs (map_method h (map_at m h) name args))
  call_method p (str_val s) name args kwargs = do
    h ← gets (λ s. s.heap)
    w ← gets (λ s. s.world)
    at_pos p (
        Methods.refuse_kwargs (codes "string") name kwargs
          (string_method h outside.library w s name args))
  call_method p (list_val vs) name args kwargs = do
    h ← gets (λ s. s.heap)
    at_pos p (Methods.refuse_kwargs (codes "list") name kwargs (list_method h vs name args))
  call_method p (range_val r) name args kwargs = do
    h ← gets (λ s. s.heap)
    at_pos p (Methods.refuse_kwargs (codes "range") name kwargs (range_method h r name args))
  call_method p v name args kwargs =
      if name == codes "type" && length args == 0
      then pure (str_val (type_name v))
      else fail (at_place p (no_method (type_name v) name))

  -- The place of a bound of a slice of `n` items.
  abbrev pub bound_of : ℕ → Value F → ℕ
  bound_of n v = pos_part (clamp_index (to_int v) (pos n))

  abbrev pub slice_between : ℕ → ℕ → Values F → Value F
  slice_between lo hi items = list_val (values_slice (if ltb hi lo then hi else lo) hi items)

  unfoldable mutual
    unfolding ◌>>=◌ gets pure fail modify Scope.get new_map as_list truthy apply_unary apply_binary
        call_method index_value map_set clamp_index values_slice

    pub eval : Expr → Run F W (Value F)
    eval (int_lit p n) = pure (int_val (pos n))
    eval (float_lit p text) = pure (float_val (float_or_zero (floats.parse text)))
    eval (bool_lit p b) = pure (bool_val b)
    eval (string_lit p raw) = do s ← outside.interpolate raw; pure (str_val s)
    eval (ident p name) = gets (λ s. or_unset (Scope.get name s.scope))
    eval (list_lit p es) = do vs ← eval_all es; pure (list_val (list_of vs))
    eval (range_lit p a b) = do
      lo ← eval a
      hi ← eval b
      pure (range_val (record { lo = to_int lo; hi = to_int hi }))
    eval (unary p op x) = do v ← eval x; h ← gets (λ s. s.heap); at_pos p (apply_unary h op v)
    eval (binary p op a b) = do
      l ← eval a
      h ← gets (λ s. s.heap)
      if op == Token.and_and && not (truthy h l)
          then pure (bool_val false)
          else if op == Token.or_or && truthy h l
          then pure (bool_val true)
          else do
            r ← eval b
            g ← gets (λ s. s.heap)
            if op == Token.and_and || op == Token.or_or
                then pure (bool_val (truthy g r))
                else at_pos p (apply_binary g op l r)
    eval (index p x i) = do
      recv ← eval x
      idx ← eval i
      h ← gets (λ s. s.heap)
      w ← gets (λ s. s.world)
      at_pos p (index_value h outside.library w recv idx)
    eval (slice p x a b) = do
      recv ← eval x
      h ← gets (λ s. s.heap)
      found ← at_pos p (as_list h recv)
      items ← items_or_fault p recv found
      lo ← eval_bound 0 (values_length items) a
      hi ← eval_bound (values_length items) (values_length items) b
      pure (slice_between lo hi items)
    eval (map_lit p es) = do entries ← eval_entries p [] es; m ← new_map entries; pure (map_val m)
    eval (call p absent name args kwargs) = do
      vs ← eval_all args
      ks ← eval_kwargs [] kwargs
      outside.call_builtin name vs ks
    eval (call p (present x) name args kwargs) = do
      vs ← eval_all args
      ks ← eval_kwargs [] kwargs
      recv ← eval x
      call_method p recv name vs ks

    -- A bound of a slice, where there is one.
    pub eval_bound : ℕ → ℕ → Operand → Run F W ℕ
    eval_bound default n absent = pure default
    eval_bound default n (present e) = do v ← eval e; pure (bound_of n v)

    pub eval_all : Exprs → Run F W (List (Value F))
    eval_all no_exprs = pure []
    eval_all (expr_then e es) = do v ← eval e; vs ← eval_all es; pure (v ∷ vs)

    pub eval_kwargs : List (Str × Value F) → KwArgs → Run F W (List (Str × Value F))
    eval_kwargs done no_kwargs = pure done
    eval_kwargs done (kwarg_then name e ks) = do v ← eval e; eval_kwargs (map_set name v done) ks

    pub eval_entries : Token.Pos → List (Str × Value F) → Entries → Run F W (List (Str × Value F))
    eval_entries p done no_entries = pure done
    eval_entries p done (entry_then key e es) = do
      kv ← eval key
      k ← string_key p kv
      v ← eval e
      eval_entries p (map_set k v done) es
