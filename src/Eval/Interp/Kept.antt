-- ===== src/Eval/Interp/Kept.antt =====
-- What holds of the state whatever the maps hold is kept by the evaluation of an expression.
use cgpipe.Prelude.{
  ℕ, List, [], ◌∷◌, ◌++◌, Bool, true, false, not, ◌&&◌, ◌||◌, Option, none, some, if◌then◌else◌,
  nat_eq, list_eq, ◌==◌, length,
}
use cgpipe.Text.{Str, codes}
use cgpipe.Exec.{Result, ok, err, pure, fail, gets, ◌>>=◌}
use cgpipe.Exec.Triple.{
  Triple, triple_pure, triple_fail, triple_gets, triple_if, triple_bind, triple_modify,
}
use cgpipe.Syntax.Token
use cgpipe.Syntax.Token.{kind_eq}
use cgpipe.Syntax.Ast.{
  Expr, int_lit, float_lit, string_lit, ident, bool_lit, list_lit, range_lit, index, slice, call,
  map_lit, unary, binary, Operand, absent, present, Exprs, no_exprs, expr_then, KwArgs, no_kwargs,
  kwarg_then, Entries, no_entries, entry_then,
}
use cgpipe.Eval.Value.{
  Floats, Value, str_val, bool_val, list_val, range_val, file_val, map_val, Values, Heap, Fault,
  map_set, values_length, as_list, truthy,
}
use cgpipe.Eval.Operators.{apply_binary, apply_unary}
use cgpipe.Eval.Methods
use cgpipe.Eval.Methods.{map_method, list_method, range_method, string_method, index_value}
use cgpipe.Eval.Interp.{
  Interp, RunError, Run, Outside, at_pos, lift_plain, string_key, items_or_fault, new_map, list_of,
  call_method, bound_of, slice_between, eval, eval_bound, eval_all, eval_kwargs, eval_entries,
}

abbrev pub Keeps : {F W A : Type 0} → (Interp F W → Type 0) → Run F W A → Type 0
Keeps P m = Triple P m (λ _. P) (λ _. P)

-- What is outside of the model keeps `P`, and so does any change of the maps.
pub record Leaves (F W : Type 0) (outside : Outside F W) (P : Interp F W → Type 0) : Type 0 where
  pub heap : (h : Heap F) (s : Interp F W) → P s → P (record s { heap = h })
  pub interpolate : (t : Str) → Keeps P (outside.interpolate t)
  pub expand : (t : Str) → Keeps P (outside.expand_template t)
  pub builtin :
      (name : Str) (vs : List (Value F)) (ks : List (Str × Value F))
      → Keeps P (outside.call_builtin name vs ks)
  pub file :
      (v : Value F) (name : Str) (vs : List (Value F)) (ks : List (Str × Value F))
      → Keeps P (outside.file_method v name vs ks)

module _ {F W A : Type 0} {P : Interp F W → Type 0} where
  pub keep_pure : (a : A) → Keeps P (pure a)
  keep_pure a = triple_pure a

  pub keep_fail : (e : RunError) → Keeps P (fail {A = A} e)
  keep_fail e = triple_fail e

  pub keep_at_pos : (p : Token.Pos) (r : Result Fault A) → Keeps P (at_pos p r)
  keep_at_pos p (ok a) = triple_pure a
  keep_at_pos p (err e) = triple_fail _

  pub keep_plain : (r : Result Fault A) → Keeps P (lift_plain r)
  keep_plain (ok a) = triple_pure a
  keep_plain (err e) = triple_fail _

  pub keep_if : (b : Bool) {x y : Run F W A} → Keeps P x → Keeps P y → Keeps P (if b then x else y)
  keep_if b x y = triple_if b (λ _. x) (λ _. y)

  pub keep_reading :
      {B : Type 0} (f : Interp F W → A) {k : A → Run F W B}
      → ((a : A) → Keeps P (k a))
      → Keeps P (gets f >>= k)
  keep_reading f h = triple_bind (triple_gets {Q = λ _. P} f λ s p. p) h

module _ {F W : Type 0} ⦃floats : Floats F⦄ (outside : Outside F W) (P : Interp F W → Type 0)
    (leaves : Leaves F W outside P) where
  keep_key : (p : Token.Pos) (v : Value F) → Keeps P (string_key p v)
  keep_key p (str_val k) = keep_pure k
  keep_key p _ = keep_fail _

  keep_sliced :
      (p : Token.Pos) (v : Value F) (x : Option (Values F)) → Keeps P (items_or_fault p v x)
  keep_sliced p v none = keep_fail _
  keep_sliced p v (some items) = keep_pure items

  pub keep_new_map : (es : List (Str × Value F)) → Keeps P (new_map es)
  unfolding new_map
  keep_new_map es =
      keep_reading (λ s. length s.heap)
        λ n.
          triple_bind
            (triple_modify P (λ s. record s { heap = s.heap ++ (es ∷ []) })
              λ s p. leaves.heap _ s p)
            λ _. keep_pure n

  keep_method :
      (p : Token.Pos) (v : Value F) (name : Str) (vs : List (Value F)) (ks : List (Str × Value F))
      → Keeps P (call_method outside p v name vs ks)
  unfolding call_method
  keep_method p (file_val path mode w) name vs ks = leaves.file (file_val path mode w) name vs ks
  keep_method p (map_val m) name vs ks = keep_reading (λ s. s.heap) λ h. keep_at_pos p _
  keep_method p (str_val t) name vs ks =
      keep_reading (λ s. s.heap)
        λ h.
          keep_reading (λ s. s.world)
            λ w. keep_at_pos p (
              Methods.refuse_kwargs (codes "string") name ks
                (string_method h outside.library w t name vs))
  keep_method p (list_val items) name vs ks = keep_reading (λ s. s.heap) λ h. keep_at_pos p _
  keep_method p (range_val r) name vs ks = keep_reading (λ s. s.heap) λ h. keep_at_pos p _
  keep_method p _ name vs ks =
      keep_if (name == codes "type" && length vs == 0) (keep_pure _) (keep_fail _)

  mutual
    unfolding eval

    pub eval-Keeps : (e : Expr) → Keeps P (eval outside e)
    eval-Keeps (int_lit p n) = keep_pure _
    eval-Keeps (float_lit p text) = keep_pure _
    eval-Keeps (bool_lit p b) = keep_pure _
    eval-Keeps (string_lit p raw) = triple_bind (leaves.interpolate raw) λ s. keep_pure (str_val s)
    eval-Keeps (ident p name) = triple_gets _ λ s h. h
    eval-Keeps (list_lit p es) =
        triple_bind (eval_all-Keeps es) λ vs. keep_pure (list_val (list_of vs))
    eval-Keeps (range_lit p a b) =
        triple_bind (eval-Keeps a) λ lo. triple_bind (eval-Keeps b) λ hi. keep_pure _
    eval-Keeps (unary p op x) =
        triple_bind (eval-Keeps x)
          λ v. keep_reading (λ s. s.heap) λ h. keep_at_pos p (apply_unary h op v)
    eval-Keeps (binary p op a b) = triple_bind (eval-Keeps a) λ l.
        keep_reading (λ s. s.heap)
          λ h. keep_if (op == Token.and_and && not (truthy h l)) (keep_pure (bool_val false)) (
            keep_if (op == Token.or_or && truthy h l) (keep_pure (bool_val true)) (
              triple_bind (eval-Keeps b) λ r.
                keep_reading (λ s. s.heap)
                  λ g.
                    keep_if (op == Token.and_and || op == Token.or_or)
                      (keep_pure (bool_val (truthy g r))) (keep_at_pos p (apply_binary g op l r))))
    eval-Keeps (index p x i) = triple_bind (eval-Keeps x) λ recv. triple_bind (eval-Keeps i) λ idx.
        keep_reading (λ s. s.heap)
          λ h.
            keep_reading (λ s. s.world)
              λ w. keep_at_pos p (index_value h outside.library w recv idx)
    eval-Keeps (slice p x a b) = triple_bind (eval-Keeps x) λ recv.
        keep_reading (λ s. s.heap)
          λ h. triple_bind (keep_at_pos p (as_list h recv)) λ found.
            triple_bind (keep_sliced p recv found) λ items.
              triple_bind (eval_bound-Keeps 0 (values_length items) a) λ lo.
                triple_bind (eval_bound-Keeps (values_length items) (values_length items) b)
                  λ hi. keep_pure (slice_between outside lo hi items)
    eval-Keeps (map_lit p es) =
        triple_bind (eval_entries-Keeps p [] es)
          λ entries. triple_bind (keep_new_map entries) λ m. keep_pure (map_val m)
    eval-Keeps (call p absent name args kwargs) =
        triple_bind (eval_all-Keeps args)
          λ vs. triple_bind (eval_kwargs-Keeps [] kwargs) λ ks. leaves.builtin name vs ks
    eval-Keeps (call p (present x) name args kwargs) = triple_bind (eval_all-Keeps args) λ vs.
        triple_bind (eval_kwargs-Keeps [] kwargs)
          λ ks. triple_bind (eval-Keeps x) λ recv. keep_method p recv name vs ks

    eval_bound-Keeps : (d n : ℕ) (x : Operand) → Keeps P (eval_bound outside d n x)
    eval_bound-Keeps d n absent = keep_pure d
    eval_bound-Keeps d n (present e) =
        triple_bind (eval-Keeps e) λ v. keep_pure (bound_of outside n v)

    eval_all-Keeps : (es : Exprs) → Keeps P (eval_all outside es)
    eval_all-Keeps no_exprs = keep_pure []
    eval_all-Keeps (expr_then e es) =
        triple_bind (eval-Keeps e) λ v. triple_bind (eval_all-Keeps es) λ vs. keep_pure (v ∷ vs)

    eval_kwargs-Keeps :
        (done : List (Str × Value F)) (ks : KwArgs) → Keeps P (eval_kwargs outside done ks)
    eval_kwargs-Keeps done no_kwargs = keep_pure done
    eval_kwargs-Keeps done (kwarg_then name e ks) =
        triple_bind (eval-Keeps e) λ v. eval_kwargs-Keeps (map_set name v done) ks

    eval_entries-Keeps :
        (p : Token.Pos) (done : List (Str × Value F)) (es : Entries)
        → Keeps P (eval_entries outside p done es)
    eval_entries-Keeps p done no_entries = keep_pure done
    eval_entries-Keeps p done (entry_then key e es) = triple_bind (eval-Keeps key) λ kv.
        triple_bind (keep_key p kv)
          λ k. triple_bind (eval-Keeps e) λ v. eval_entries-Keeps p (map_set k v done) es
