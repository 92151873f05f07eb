-- ===== src/Eval/Frames.antt =====
-- internal/eval/eval.go and value.go: what the statements do to the interpreter's state.
pub mod Owned
pub mod Maps
use cgpipe.Prelude.{
  ℕ, zero, suc, ◌+◌, ◌-◌, List, [], ◌∷◌, ◌++◌, Bool, true, false, not, ◌&&◌, ◌||◌, Option, none,
  some, nat_eq, list_eq, if◌then◌else◌, ltb, ◌==◌, length, map,
}
use cgpipe.Prelude.Assoc.{insert, lookup}
use cgpipe.Text.{Str, codes, join}
use cgpipe.Exec.{Result, ok, err, Exec, pure, fail, gets, modify, finally, ◌>>=◌, ◌>>◌}
use cgpipe.Syntax.Token
use cgpipe.Syntax.Cursor.{Failure}
use cgpipe.Syntax.Ast.{Expr, index, ident, Operand, absent, present, Exprs, no_exprs, expr_then}
use cgpipe.Syntax.Stmt.{
  Body, Stmt, assign, expr_stmt, include, eval_stmt, sleep, print, exit_with, unset, if_chain,
  for_loop, snippet, export, var_decl, stage, dumpvars, showhelp, target, Stmts, no_stmts,
  stmt_then, Arms, no_arms, arm_then, File,
}
use cgpipe.Syntax.Statements.{parse}
use cgpipe.Eval.Range.{ℤ, pos}
use cgpipe.Eval.Scope
use cgpipe.Eval.Value.{
  Floats, Value, int_val, str_val, list_val, unset_val, file_val, map_val, Values, no_values,
  value_then, Heap, type_name, map_set, map_get, map_at, append_values, as_list, stringify, truthy,
}
use cgpipe.Eval.Operators.{to_int}
use cgpipe.Eval.Interp.{
  TargetDecl, Program, Interp, RunError, plain, not_parsed, exit_error, include_cycle, not_read,
  no_iteration, no_string_key, no_index_assign, too_many_turns, no_named_target, out_of_fuel, Run,
  Outside, lift_plain, new_map, eval,
}

abbrev pub has_number : ℕ → List ℕ → Bool
has_number n [] = false
has_number n (m ∷ ms) = n == m || has_number n ms

abbrev pub has_text : Str → List Str → Bool
has_text s [] = false
has_text s (t ∷ ts) = s == t || has_text s ts

abbrev pub without_text : Str → List Str → List Str
without_text s [] = []
without_text s (t ∷ ts) = if s == t then without_text s ts else t ∷ without_text s ts

-- The handles with one more at a frame.
unfoldable pub give_handle : ℕ → ℕ → List (List ℕ) → List (List ℕ)
give_handle i w [] = []
give_handle zero w (ws ∷ fs) = (ws ++ (w ∷ [])) ∷ fs
give_handle (suc i) w (ws ∷ fs) = ws ∷ give_handle i w fs

abbrev pub top_handles : List (List ℕ) → List ℕ
top_handles [] = []
top_handles (ws ∷ fs) = ws

abbrev pub parent {ℓ} : {A : Type ℓ} → List A → List A
parent [] = []
parent (f ∷ fs) = fs

abbrev pub without_mark : List Str → List Str
without_mark [] = []
without_mark ((c ∷ o) ∷ os) = (if c == b'^' then o else c ∷ o) ∷ without_mark os
without_mark ([] ∷ os) = [] ∷ without_mark os

abbrev pub marked_outputs : List Str → List Str
marked_outputs [] = []
marked_outputs ((c ∷ o) ∷ os) = if c == b'^' then o ∷ marked_outputs os else marked_outputs os
marked_outputs ([] ∷ os) = marked_outputs os

abbrev pub first_output_of : Str → List Str → Str
first_output_of [] (o ∷ os) = o
first_output_of s os = s

module _ {F : Type 0} where
  -- `+=` to what there is: a list grows, and anything else becomes a list.
  abbrev pub grown : Option (Value F) → Value F → Value F
  grown none v = list_val (value_then v no_values)
  grown (some (list_val vs)) v = list_val (append_values vs (value_then v no_values))
  grown (some w) v = list_val (value_then w (value_then v no_values))

  abbrev pub is_bound : Option (Value F) → Bool
  is_bound none = false
  is_bound (some v) = true

  -- The entries of a map behind an assignment to a key.
  unfoldable pub entry_by : Token.Kind → Str → Value F → List (Str × Value F) → List (Str × Value F)
  unfolding map_set map_get append_values
  entry_by Token.assign k v es = map_set k v es
  entry_by Token.q_assign k v es = if is_bound (map_get k es) then es else map_set k v es
  entry_by Token.plus_assign k v es = map_set k (grown (map_get k es) v) es
  entry_by _ k v es = es

  unfoldable pub change_map : ℕ → (List (Str × Value F) → List (Str × Value F)) → Heap F → Heap F
  change_map n f [] = []
  change_map zero f (m ∷ h) = f m ∷ h
  change_map (suc n) f (m ∷ h) = m ∷ change_map n f h

  -- The program with a target.
  unfoldable pub declared : TargetDecl F → Program F → Program F
  declared t p =
      if t.special == codes "default"
      then record p { default_goals = p.default_goals ++ t.inputs }
      else if t.special == codes "pre"
      then record p { pre = some t }
      else if t.special == codes "post"
      then record p { post = some t }
      else if t.special == codes "setup"
      then record p { setup = some t }
      else if t.special == codes "teardown"
      then record p { teardown = some t }
      else if t.special == codes "postsubmit"
      then record p { postsubmit = some t }
      else record p {
        targets = p.targets ++ (t ∷ []);
        first_output = first_output_of p.first_output t.outputs;
      }

module _ {F W : Type 0} where
  -- adoptHandle, for the frame at a position
  unfoldable pub adopted : ℕ → Value F → Interp F W → Interp F W
  unfolding give_handle
  adopted i (file_val path mode (some w)) s =
      if has_number w s.owned
      then s
      else record s { owned = w ∷ s.owned; handles = give_handle i w s.handles }
  adopted i v s = s

  -- pushScope, and the function that it returns
  unfoldable pub pushed : Interp F W → Interp F W
  pushed s = record s { scope = [] ∷ s.scope; handles = [] ∷ s.handles }

  unfoldable pub popped : Interp F W → Interp F W
  popped s = record s {
    scope = parent s.scope;
    handles = parent s.handles;
    closed = s.closed ++ top_handles s.handles;
  }

  unfoldable pub in_block : Run F W (Unit {0}) → Run F W (Unit {0})
  unfolding ◌>>=◌ modify finally pushed popped
  in_block m = modify pushed >> finally popped m

  unfoldable pub bind : Str → Value F → Interp F W → Interp F W
  unfolding Scope.set
  bind name v s = record s { scope = Scope.set name v s.scope }

  -- The counter of a loop, where it has a name.
  abbrev pub bind_count : Str → ℕ → Interp F W → Interp F W
  bind_count [] i s = s
  bind_count (c ∷ name) i s = bind (c ∷ name) (int_val (pos i)) s

  -- Scope.assign, with the frame
  unfoldable pub assigned : Str → Value F → Interp F W → Interp F W
  unfolding Scope.assign
  assigned name v s = record s { scope = (Scope.assign name v s.scope).0 }

  -- An assignment, whose frame takes the handle.
  unfoldable pub assign_owned : Str → Value F → Interp F W → Interp F W
  unfolding assigned adopted Scope.home
  assign_owned name v s = adopted (Scope.home name s.scope) v (assigned name v s)

  unfoldable pub assign_by : Token.Kind → Str → Value F → Interp F W → Interp F W
  unfolding assign_owned assigned Scope.get Scope.has append_values
  assign_by Token.assign name v s = assign_owned name v s
  assign_by Token.q_assign name v s = if Scope.has name s.scope then s else assign_owned name v s
  assign_by Token.plus_assign name v s = assigned name (grown (Scope.get name s.scope) v) s
  assign_by _ name v s = s

  abbrev pub key_of : Token.Pos → Value F → Run F W Str
  key_of p (str_val k) = pure k
  key_of p v = fail (no_string_key p (type_name v))

  -- The map that a name stands for, or a new one.
  unfoldable pub map_named : Token.Pos → Option (Value F) → Run F W ℕ
  unfolding pure fail new_map
  map_named p (some (map_val m)) = pure m
  map_named p (some unset_val) = new_map []
  map_named p none = new_map []
  map_named p (some v) = fail (no_index_assign p (type_name v))

  abbrev pub with_program : (Program F → Program F) → Interp F W → Interp F W
  with_program f s = record s { program = f s.program }
