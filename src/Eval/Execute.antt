-- ===== src/Eval/Execute.antt =====
-- internal/eval/eval.go: the statements. A source that a statement evaluates or includes takes fuel; the
-- statements of one source need none, since a loop has at most maxLoopIterations turns.
mod Steps
mod Balanced
mod Loops
mod Maps
mod Tests
use cgpipe.Prelude.{
  ℕ, zero, suc, ◌+◌, ◌-◌, List, [], ◌∷◌, ◌++◌, Bool, true, false, not, ◌&&◌, ◌||◌, Option, none,
  some, nat_eq, list_eq, if◌then◌else◌, ltb, ◌==◌, length, map,
}
use cgpipe.Prelude.Assoc.{insert, lookup}
use cgpipe.Text.{Str, codes, join}
use cgpipe.Exec.{Result, ok, err, Exec, pure, fail, gets, modify, finally, ◌>>=◌, ◌>>◌}
use cgpipe.Syntax.Token
use cgpipe.Syntax.Cursor.{Failure}
use cgpipe.Syntax.Ast.{Expr, index, ident, Operand, absent, present, Exprs, no_exprs, expr_then}
use cgpipe.Syntax.Stmt.{
  Body, Stmt, assign, expr_stmt, include, eval_stmt, sleep, print, exit_with, unset, if_chain,
  for_loop, snippet, export, var_decl, stage, dumpvars, showhelp, target, Stmts, no_stmts,
  stmt_then, Arms, no_arms, arm_then, File,
}
use cgpipe.Syntax.Statements.{parse}
use cgpipe.Eval.Range.{ℤ, pos}
use cgpipe.Eval.Scope
use cgpipe.Eval.Value.{
  Floats, Value, int_val, str_val, list_val, unset_val, file_val, map_val, Values, no_values,
  value_then, Heap, type_name, map_set, map_get, map_at, append_values, as_list, stringify, truthy,
}
use cgpipe.Eval.Operators.{to_int}
use cgpipe.Eval.Interp.{
  TargetDecl, Program, Interp, RunError, plain, not_parsed, exit_error, include_cycle, not_read,
  no_iteration, no_string_key, no_index_assign, too_many_turns, no_named_target, out_of_fuel, Run,
  Outside, lift_plain, new_map, eval,
}
use cgpipe.Ledger.Query.{sort_texts}
use cgpipe.Eval.Frames.{
  has_text, without_text, in_block, bind, bind_count, adopted, assign_by, assigned, entry_by,
  change_map, key_of, map_named, without_mark, marked_outputs, declared, with_program,
}

-- The files of the sources, as `include` finds them.
pub record Sources (W : Type 0) : Type 0 where
  -- The path to read and the absolute path, from a directory and a path.
  pub resolve : W → Str → Str → Str × Str
  pub read_file : W → Str → Option Str
  pub dir_of : Str → Str

abbrev pub max_loop_iterations : ℕ
max_loop_iterations = 1000000

-- The frame on top.
abbrev pub top_frame : {A : Type 0} → List (List A) → List A
top_frame [] = []
top_frame (f ∷ fs) = f

module _ {F W : Type 0} ⦃floats : Floats F⦄ (outside : Outside F W) (sources : Sources W) where
  abbrev pub now : (Interp F W → Interp F W) → Run F W (Unit {0})
  now f = modify f

  abbrev pub text_now : Value F → Run F W Str
  text_now v = do h ← gets (λ s. s.heap); lift_plain (stringify h v)

  abbrev pub is_true_now : Value F → Run F W Bool
  is_true_now v = gets (λ s. truthy s.heap v)

  abbrev pub eval_or : Value F → Operand → Run F W (Value F)
  eval_or default absent = pure default
  eval_or default (present e) = eval outside e

  unfoldable pub exec_var : Str → Operand → Run F W (Unit {0})
  unfolding ◌>>=◌ modify pure bind adopted eval
  exec_var name init = do v ← eval_or unset_val init; now (bind name v); now (adopted 0 v)

  unfoldable pub exec_assign : Str → Token.Kind → Expr → Run F W (Unit {0})
  unfolding ◌>>=◌ modify assign_by eval
  exec_assign name op e = do v ← eval outside e; now (assign_by op name v)

  unfoldable pub exec_assign_index : Token.Pos → Expr → Token.Kind → Expr → Run F W (Unit {0})
  unfolding ◌>>=◌ gets modify pure fail Scope.get map_named entry_by change_map assigned eval
  exec_assign_index p (index q (ident r name) i) op e = do
    kv ← eval outside i
    k ← key_of p kv
    base ← gets (λ s. Scope.get name s.scope)
    m ← map_named p base
    v ← eval outside e
    now (λ s. record s { heap = change_map m (entry_by op k v) s.heap })
    now (assigned name (map_val m))
  exec_assign_index p _ op e = fail (no_named_target p)

  unfoldable pub print_texts : Exprs → Run F W (List Str)
  unfolding ◌>>=◌ gets pure fail eval stringify
  print_texts no_exprs = pure []
  print_texts (expr_then e es) = do
    v ← eval outside e
    s ← text_now v
    ss ← print_texts es
    pure (s ∷ ss)

  unfoldable pub exec_print : Exprs → Run F W (Unit {0})
  unfolding ◌>>=◌ modify print_texts join
  exec_print es = do
    ss ← print_texts es
    now (λ s. record s { out = s.out ++ (join ss (codes " ") ∷ []) })

  unfoldable pub exec_exit : Operand → Run F W (Unit {0})
  unfolding ◌>>=◌ pure fail eval
  exec_exit code = do v ← eval_or (int_val (pos 0)) code; fail (exit_error (to_int v))

  unfoldable pub expand_words : List Str → Run F W (List Str)
  unfolding ◌>>=◌ pure
  expand_words [] = pure []
  expand_words (w ∷ ws) = do
    here ← outside.expand_template w
    rest ← expand_words ws
    pure (here ++ rest)

  abbrev pub raw_of : Option Body → Option Str
  raw_of none = none
  raw_of (some b) = some b.raw

  unfoldable pub exec_target :
      Token.Pos → Str → List Str → List Str → Option Body → Run F W (Unit {0})
  unfolding ◌>>=◌ gets modify expand_words declared Scope.clone
  exec_target p special outputs inputs body = do
    outs ← expand_words outputs
    ins ← expand_words inputs
    sc ← gets (λ s. s.scope)
    now (
        with_program (
          declared (record {
            pos = p;
            special = special;
            outputs = without_mark outs;
            temp = marked_outputs outs;
            inputs = ins;
            body = raw_of body;
            scope = Scope.clone sc;
          })))

  -- The lines of dumpvars.
  unfoldable pub var_lines : Heap F → List (Str × Value F) → List Str → Run F W (List Str)
  unfolding ◌>>=◌ pure fail stringify lookup
  var_lines h frame [] = pure []
  var_lines h frame (k ∷ ks) = do
    s ← lift_plain (elim (lookup k frame) [ none ↦ ok [] | some v ↦ stringify h v ])
    ss ← var_lines h frame ks
    pure ((k ++ (codes " = " ++ s)) ∷ ss)

  unfoldable pub exec_dumpvars : Run F W (Unit {0})
  unfolding ◌>>=◌ gets modify var_lines sort_texts
  exec_dumpvars = do
    h ← gets (λ s. s.heap)
    frame ← gets (λ s. top_frame s.scope)
    lines ← var_lines h frame (sort_texts (map (λ e. e.0) frame))
    now (λ s. record s { out = s.out ++ lines })

  -- The turns of `for … in`, with the number of the next.
  unfoldable pub for_items : Run F W (Unit {0}) → Str → Str → ℕ → Values F → Run F W (Unit {0})
  unfolding ◌>>=◌ modify pure in_block bind
  for_items body var idx i no_values = pure tt
  for_items body var idx i (value_then v vs) =
      let rest = for_items body var idx (suc i) vs in
      in_block (now (bind var v) >> now (bind_count idx i) >> body) >> rest

  -- The turns that a loop with a condition has left.
  unfoldable pub while_turns : Token.Pos → Expr → Run F W (Unit {0}) → ℕ → Run F W (Unit {0})
  unfolding ◌>>=◌ gets fail pure truthy in_block eval
  while_turns p cond body zero = fail (too_many_turns p)
  while_turns p cond body (suc n) =
      let rest = while_turns p cond body n in
      do v ← eval outside cond; b ← is_true_now v; if b then (in_block body >> rest) else pure tt

  abbrev pub loop_over :
      Token.Pos → Value F → (Values F → Run F W (Unit {0})) → Option (Values F) → Run F W (Unit {0})
  loop_over p v f none = fail (no_iteration p (type_name v))
  loop_over p v f (some items) = f items

  unfoldable pub exec_for :
      Token.Pos → Str → Str → Operand → Operand → Run F W (Unit {0}) → Run F W (Unit {0})
  unfolding ◌>>=◌ gets pure fail as_list for_items while_turns eval
  exec_for p var idx (present iter) cond body = do
    v ← eval outside iter
    h ← gets (λ s. s.heap)
    found ← lift_plain (as_list h v)
    loop_over p v (for_items body var idx 1) found
  exec_for p var idx absent (present cond) body = while_turns p cond body max_loop_iterations
  exec_for p var idx absent absent body = pure tt

  -- The statements of another source.
  abbrev pub run_parsed : (Stmts → Run F W (Unit {0})) → Result Failure File → Run F W (Unit {0})
  run_parsed nested (ok file) = nested file.stmts
  run_parsed nested (err e) = fail (not_parsed e)

  abbrev pub include_read :
      Token.Pos
      → Str
      → Str
      → Str
      → Str
      → (Stmts → Run F W (Unit {0}))
      → Option Str
      → Run F W (Unit {0})
  include_read p path resolved abs old_dir nested none = fail (not_read p path)
  include_read p path resolved abs old_dir nested (some src) =
      run_parsed
        (λ stmts.
          now (λ s. record s { including = abs ∷ s.including; dir = sources.dir_of resolved })
          >> finally (λ s. record s { including = without_text abs s.including; dir = old_dir })
              (nested stmts))
        (parse src resolved)

  unfoldable pub exec_include : Token.Pos → Expr → (Stmts → Run F W (Unit {0})) → Run F W (Unit {0})
  unfolding ◌>>=◌ gets pure fail modify finally stringify parse eval
  exec_include p e nested = do
    v ← eval outside e
    path ← text_now v
    old_dir ← gets (λ s. s.dir)
    w ← gets (λ s. s.world)
    active ← gets (λ s. s.including)
    let found = sources.resolve w old_dir path in
        if has_text found.1 active
        then fail (include_cycle p path)
        else include_read p path found.0 found.1 old_dir nested (sources.read_file w found.0)

  unfoldable pub exec_eval : Expr → (Stmts → Run F W (Unit {0})) → Run F W (Unit {0})
  unfolding ◌>>=◌ gets pure fail stringify parse eval
  exec_eval e nested = do
    v ← eval outside e
    src ← text_now v
    run_parsed nested (parse src (codes "<eval>"))

  -- execStmts, execStmt and execIf, where `nested` runs the statements of another source
  unfoldable mutual
    unfolding ◌>>=◌ gets pure fail modify in_block insert Scope.del exec_var exec_assign
        exec_assign_index exec_print exec_exit exec_target exec_dumpvars exec_for exec_include
        exec_eval eval

    pub exec_stmts : (Stmts → Run F W (Unit {0})) → Stmts → Run F W (Unit {0})
    exec_stmts nested no_stmts = pure tt
    exec_stmts nested (stmt_then x xs) = exec_stmt nested x >> exec_stmts nested xs

    pub exec_stmt : (Stmts → Run F W (Unit {0})) → Stmt → Run F W (Unit {0})
    exec_stmt nested (assign p name (present t) op e) = exec_assign_index p t op e
    exec_stmt nested (assign p name absent op e) = exec_assign name op e
    exec_stmt nested (expr_stmt p e) = eval outside e >>= λ _. pure tt
    exec_stmt nested (print p es) = exec_print es
    exec_stmt nested (exit_with p code) = exec_exit code
    exec_stmt nested (unset p name) = now (λ s. record s { scope = Scope.del name s.scope })
    exec_stmt nested (if_chain p arms else_block) =
        exec_arms nested arms (in_block (exec_stmts nested else_block))
    exec_stmt nested (for_loop p var idx iter cond body) =
        exec_for p var idx iter cond (exec_stmts nested body)
    exec_stmt nested (target p special outputs inputs body) =
        exec_target p special outputs inputs body
    exec_stmt nested (include p e) = exec_include p e nested
    exec_stmt nested (snippet p name body) =
        now (with_program (λ q. record q { snippets = insert name body q.snippets }))
    exec_stmt nested (eval_stmt p e) = exec_eval e nested
    exec_stmt nested (dumpvars p) = exec_dumpvars
    exec_stmt nested (showhelp p) = now (λ s. record s { out = s.out ++ (s.program.help ∷ []) })
    exec_stmt nested (sleep p e) = eval outside e >>= λ _. pure tt
    exec_stmt nested (export p name e) = do
      v ← eval outside e
      now (with_program (λ q. record q { exports = insert name v q.exports }))
    exec_stmt nested (var_decl p name init) = exec_var name init
    exec_stmt nested (stage p name file args) =
        now (with_program (λ q. record q { stages = q.stages ++ ((name, file, args) ∷ []) }))

    -- The blocks of an `if`, with what runs where no condition holds.
    pub exec_arms : (Stmts → Run F W (Unit {0})) → Arms → Run F W (Unit {0}) → Run F W (Unit {0})
    exec_arms nested no_arms otherwise = otherwise
    exec_arms nested (arm_then cond block arms) otherwise = do
      v ← eval outside cond
      b ← is_true_now v
      if b then in_block (exec_stmts nested block) else exec_arms nested arms otherwise

  unfoldable pub exec_source : ℕ → Stmts → Run F W (Unit {0})
  unfolding fail exec_stmts
  exec_source zero stmts = fail out_of_fuel
  exec_source (suc fuel) stmts = exec_stmts (exec_source fuel) stmts
