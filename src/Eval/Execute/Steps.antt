-- ===== src/Eval/Execute/Steps.antt =====
-- The statements that run no others keep the frames and their handles.
use cgpipe.Prelude.{
  nat_eq, list_eq, ℕ, zero, suc, List, [], ◌∷◌, ◌++◌, Option, none, some, map, arith,
}
use cgpipe.Text.{Str, codes, join}
use cgpipe.Exec.{Result, ok, err, modify}
use cgpipe.Exec.Triple.{Triple, Post, triple_bind, triple_modify, triple_finally}
use cgpipe.Syntax.Token
use cgpipe.Syntax.Ast.{Expr, index, ident, Operand, absent, present, Exprs, no_exprs, expr_then}
use cgpipe.Syntax.Stmt.{Body}
use cgpipe.Ledger.Query.{sort_texts}
use cgpipe.Eval.Range.{pos}
use cgpipe.Eval.Scope
use cgpipe.Eval.Value.{
  Floats, Value, int_val, str_val, unset_val, map_val, Values, no_values, value_then, Heap, as_list,
  stringify, truthy,
}
use cgpipe.Eval.Interp.{Interp, RunError, Run, Outside, eval}
use cgpipe.Eval.Interp.Kept.{
  Keeps, Leaves, keep_pure, keep_fail, keep_plain, keep_if, keep_reading, keep_new_map, eval-Keeps,
}
use cgpipe.Eval.Frames.{
  in_block, bind, bind_count, adopted, assign_by, assigned, entry_by, change_map, pushed, popped,
  key_of, map_named, without_mark, marked_outputs, declared, with_program,
}
use cgpipe.Eval.Frames.Owned.{
  Sound, bind-Sound, adopted-Sound, assign_by-Sound, assigned-Sound, pushed-Sound, popped-Sound,
}
use cgpipe.Eval.Execute.{
  Sources, max_loop_iterations, text_now, eval_or, exec_var, exec_assign, exec_assign_index,
  print_texts, exec_print, exec_exit, expand_words, exec_target, raw_of, top_frame, var_lines,
  exec_dumpvars, for_items, while_turns, loop_over, exec_for,
}

module _ {F W : Type 0} where
  pub change :
      {P Q : Interp F W → Type 0} (f : Interp F W → Interp F W)
      → ((s : Interp F W) → P s → Q (f s))
      → Triple P (modify {E = RunError} f) (λ _. Q) (λ _. P)
  change {Q} f h = triple_modify Q f h

  pub in_block-Sound :
      (n : ℕ) {m : Run F W (Unit {0})}
      → ((k : ℕ) → Keeps (Sound k) m)
      → Keeps (Sound n) (in_block m)
  unfolding in_block
  in_block-Sound n h = triple_bind (triple_modify (Sound (suc n)) pushed (pushed-Sound n)) λ _.
      triple_finally popped (λ a s w. popped-Sound n s w) (λ e s w. popped-Sound n s w) (h (suc n))

  key_of-Keeps : {P : Interp F W → Type 0} (p : Token.Pos) (v : Value F) → Keeps P (key_of p v)
  key_of-Keeps p (str_val k) = keep_pure k
  key_of-Keeps p _ = keep_fail _

  pub Post_state :
      (n : ℕ) (r : Result RunError (Unit {0}) × Interp F W)
      → Post (λ _. Sound n) (λ _. Sound n) r
      → Sound n r.1
  Post_state n (ok a, s) h = h
  Post_state n (err e, s) h = h

  bind_count-Sound :
      (n : ℕ) (name : Str) (i : ℕ) (s : Interp F W) → Sound n s → Sound n (bind_count name i s)
  bind_count-Sound n [] i s h = h
  bind_count-Sound n (c ∷ name) i s h = bind-Sound n (c ∷ name) (int_val (pos i)) s h

module _ {F W : Type 0} ⦃floats : Floats F⦄ (outside : Outside F W) (sources : Sources W)
    (leaves : (n : ℕ) → Leaves F W outside (Sound n)) where
  pub value : (n : ℕ) (e : Expr) → Keeps (Sound n) (eval outside e)
  value n e = eval-Keeps outside (Sound n) (leaves n) e

  pub text_now-Sound : (n : ℕ) (v : Value F) → Keeps (Sound n) (text_now outside sources v)
  text_now-Sound n v = keep_reading (λ s. s.heap) λ h. keep_plain (stringify h v)

  eval_or-Sound :
      (n : ℕ) (d : Value F) (x : Operand) → Keeps (Sound n) (eval_or outside sources d x)
  eval_or-Sound n d absent = keep_pure d
  eval_or-Sound n d (present e) = value n e

  pub exec_var-Sound :
      (n : ℕ) (name : Str) (init : Operand) → Keeps (Sound n) (exec_var outside sources name init)
  unfolding exec_var
  exec_var-Sound n name init = triple_bind (eval_or-Sound n unset_val init) λ v.
      triple_bind (change (bind name v) (bind-Sound n name v))
        λ _. change (adopted 0 v) λ s w. adopted-Sound n 0 v s (omega arith) w

  pub exec_assign-Sound :
      (n : ℕ) (name : Str) (op : Token.Kind) (e : Expr)
      → Keeps (Sound n) (exec_assign outside sources name op e)
  unfolding exec_assign
  exec_assign-Sound n name op e =
      triple_bind (value n e) λ v. change (assign_by op name v) (assign_by-Sound n op name v)

  map_named-Sound :
      (n : ℕ) (p : Token.Pos) (x : Option (Value F))
      → Keeps {F = F} {W = W} (Sound n) (map_named p x)
  unfolding map_named
  map_named-Sound n p none = keep_new_map outside (Sound n) (leaves n) []
  map_named-Sound n p (some unset_val) = keep_new_map outside (Sound n) (leaves n) []
  map_named-Sound n p (some (map_val m)) = keep_pure m
  map_named-Sound n p (some _) = keep_fail _

  pub exec_assign_index-Sound :
      (n : ℕ) (p : Token.Pos) (x : Expr) (op : Token.Kind) (e : Expr)
      → Keeps (Sound n) (exec_assign_index outside sources p x op e)
  unfolding exec_assign_index
  exec_assign_index-Sound n p (index q (ident r name) i) op e = triple_bind (value n i) λ kv.
      triple_bind (key_of-Keeps p kv) λ k.
        keep_reading (λ s. Scope.get name s.scope)
          λ base. triple_bind (map_named-Sound n p base) λ m. triple_bind (value n e) λ v.
            triple_bind
              (change (λ s. record s { heap = change_map m (entry_by op k v) s.heap }) λ s w. w)
              λ _. change (assigned name (map_val m)) (assigned-Sound n name (map_val m))
  exec_assign_index-Sound n p _ op e = keep_fail _

  print_texts-Sound : (n : ℕ) (es : Exprs) → Keeps (Sound n) (print_texts outside sources es)
  unfolding print_texts
  print_texts-Sound n no_exprs = keep_pure []
  print_texts-Sound n (expr_then e es) = triple_bind (value n e) λ v.
      triple_bind (text_now-Sound n v)
        λ s. triple_bind (print_texts-Sound n es) λ ss. keep_pure (s ∷ ss)

  pub exec_print-Sound : (n : ℕ) (es : Exprs) → Keeps (Sound n) (exec_print outside sources es)
  unfolding exec_print
  exec_print-Sound n es =
      triple_bind (print_texts-Sound n es)
        λ ss. change (λ s. record s { out = s.out ++ (join ss (codes " ") ∷ []) }) λ s w. w

  pub exec_exit-Sound : (n : ℕ) (code : Operand) → Keeps (Sound n) (exec_exit outside sources code)
  unfolding exec_exit
  exec_exit-Sound n code = triple_bind (eval_or-Sound n (int_val (pos 0)) code) λ v. keep_fail _

  expand_words-Sound : (n : ℕ) (ws : List Str) → Keeps (Sound n) (expand_words outside sources ws)
  unfolding expand_words
  expand_words-Sound n [] = keep_pure []
  expand_words-Sound n (w ∷ ws) =
      triple_bind ((leaves n).expand w)
        λ here. triple_bind (expand_words-Sound n ws) λ rest. keep_pure (here ++ rest)

  pub exec_target-Sound :
      (n : ℕ) (p : Token.Pos) (special : Str) (outputs inputs : List Str) (body : Option Body)
      → Keeps (Sound n) (exec_target outside sources p special outputs inputs body)
  unfolding exec_target
  exec_target-Sound n p special outputs inputs body =
      triple_bind (expand_words-Sound n outputs) λ outs.
        triple_bind (expand_words-Sound n inputs) λ ins.
          keep_reading (λ s. s.scope)
            λ sc.
              change
                (with_program (
                  declared (record {
                    pos = p;
                    special = special;
                    outputs = without_mark outs;
                    temp = marked_outputs outs;
                    inputs = ins;
                    body = raw_of outside sources body;
                    scope = Scope.clone sc;
                  })))
                λ s w. w

  var_lines-Sound :
      (n : ℕ) (h : Heap F) (frame : List (Str × Value F)) (ks : List Str)
      → Keeps (Sound n) (var_lines outside sources h frame ks)
  unfolding var_lines
  var_lines-Sound n h frame [] = keep_pure []
  var_lines-Sound n h frame (k ∷ ks) = triple_bind (keep_plain _) λ s.
      triple_bind (var_lines-Sound n h frame ks) λ ss. keep_pure ((k ++ (codes " = " ++ s)) ∷ ss)

  pub exec_dumpvars-Sound : (n : ℕ) → Keeps (Sound n) (exec_dumpvars outside sources)
  unfolding exec_dumpvars
  exec_dumpvars-Sound n =
      keep_reading (λ s. s.heap)
        λ h.
          keep_reading (λ s. top_frame s.scope)
            λ frame.
              triple_bind (var_lines-Sound n h frame (sort_texts (map (λ e. e.0) frame)))
                λ lines. change (λ s. record s { out = s.out ++ lines }) λ s w. w

  for_items-Sound :
      (n : ℕ) {body : Run F W (Unit {0})}
      → ((k : ℕ) → Keeps (Sound k) body)
      → (var idx : Str) (i : ℕ) (vs : Values F)
      → Keeps (Sound n) (for_items outside sources body var idx i vs)
  unfolding for_items
  for_items-Sound n h var idx i no_values = keep_pure tt
  for_items-Sound n h var idx i (value_then v vs) =
      triple_bind
        (in_block-Sound n λ k.
          triple_bind
            (triple_bind (change (bind var v) (bind-Sound k var v))
              λ _. change (bind_count idx i) (bind_count-Sound k idx i))
            λ _. h k)
        λ _. for_items-Sound n h var idx (suc i) vs

  while_turns-Sound :
      (n : ℕ) (p : Token.Pos) (cond : Expr) {body : Run F W (Unit {0})}
      → ((k : ℕ) → Keeps (Sound k) body)
      → (i : ℕ) → Keeps (Sound n) (while_turns outside sources p cond body i)
  unfolding while_turns
  while_turns-Sound n p cond h zero = keep_fail _
  while_turns-Sound n p cond h (suc i) = triple_bind (value n cond) λ v.
      keep_reading (λ s. truthy s.heap v)
        λ b.
          keep_if b (triple_bind (in_block-Sound n h) λ _. while_turns-Sound n p cond h i)
            (keep_pure tt)

  loop_over-Sound :
      (n : ℕ) (p : Token.Pos) (v : Value F) (f : Values F → Run F W (Unit {0}))
      (x : Option (Values F))
      → ((vs : Values F) → Keeps (Sound n) (f vs))
      → Keeps (Sound n) (loop_over outside sources p v f x)
  loop_over-Sound n p v f none h = keep_fail _
  loop_over-Sound n p v f (some items) h = h items

  pub exec_for-Sound :
      (n : ℕ) (p : Token.Pos) (var idx : Str) (iter cond : Operand) {body : Run F W (Unit {0})}
      → ((k : ℕ) → Keeps (Sound k) body)
      → Keeps (Sound n) (exec_for outside sources p var idx iter cond body)
  unfolding exec_for
  exec_for-Sound n p var idx (present iter) cond h = triple_bind (value n iter) λ v.
      keep_reading (λ s. s.heap)
        λ g.
          triple_bind (keep_plain (as_list g v))
            λ found. loop_over-Sound n p v _ found λ vs. for_items-Sound n h var idx 1 vs
  exec_for-Sound n p var idx absent (present cond) h =
      while_turns-Sound n p cond h max_loop_iterations
  exec_for-Sound n p var idx absent absent h = keep_pure tt
