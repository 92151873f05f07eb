-- ===== src/Eval/Execute/Balanced.antt =====
-- Statements close the frames that they open, with the handles that these own.
use cgpipe.Prelude.{nat_eq, list_eq, ℕ, zero, suc, Option, none, some}
use cgpipe.Prelude.Assoc.{insert}
use cgpipe.Text.{Str, codes}
use cgpipe.Exec.{Result, ok, err}
use cgpipe.Exec.Triple.{triple_bind, triple_finally}
use cgpipe.Syntax.Token
use cgpipe.Syntax.Cursor.{Failure}
use cgpipe.Syntax.Ast.{Expr, absent, present}
use cgpipe.Syntax.Stmt.{
  Stmt, assign, expr_stmt, include, eval_stmt, sleep, print, exit_with, unset, if_chain, for_loop,
  snippet, export, var_decl, stage, dumpvars, showhelp, target, Stmts, no_stmts, stmt_then, Arms,
  no_arms, arm_then, File,
}
use cgpipe.Syntax.Statements.{parse}
use cgpipe.Eval.Value.{Floats, truthy}
use cgpipe.Eval.Interp.{Interp, include_cycle, Run, Outside}
use cgpipe.Eval.Interp.Kept.{Keeps, Leaves, keep_pure, keep_fail, keep_if, keep_reading}
use cgpipe.Eval.Frames.{has_text, with_program}
use cgpipe.Eval.Frames.Owned.{Sound, del-Sound}
use cgpipe.Eval.Execute.{
  Sources, run_parsed, include_read, exec_include, exec_eval, exec_stmts, exec_stmt, exec_arms,
  exec_source,
}
use cgpipe.Eval.Execute.Steps.{
  change, in_block-Sound, Post_state, value, text_now-Sound, exec_var-Sound, exec_assign-Sound,
  exec_assign_index-Sound, exec_print-Sound, exec_exit-Sound, exec_target-Sound,
  exec_dumpvars-Sound, exec_for-Sound,
}

module _ {F W : Type 0} ⦃floats : Floats F⦄ (outside : Outside F W) (sources : Sources W)
    (leaves : (n : ℕ) → Leaves F W outside (Sound n)) where
  module _ (nested : Stmts → Run F W (Unit {0}))
      (nested-Sound : (stmts : Stmts) (n : ℕ) → Keeps (Sound n) (nested stmts)) where
    run_parsed-Sound :
        (n : ℕ) (f : Stmts → Run F W (Unit {0})) (r : Result Failure File)
        → ((stmts : Stmts) → Keeps (Sound n) (f stmts))
        → Keeps (Sound n) (run_parsed outside sources f r)
    run_parsed-Sound n f (ok file) h = h file.stmts
    run_parsed-Sound n f (err e) h = keep_fail _

    include_read-Sound :
        (n : ℕ) (p : Token.Pos) (path resolved abs old_dir : Str) (x : Option Str)
        → Keeps (Sound n) (include_read outside sources p path resolved abs old_dir nested x)
    include_read-Sound n p path resolved abs old_dir none = keep_fail _
    include_read-Sound n p path resolved abs old_dir (some src) =
        run_parsed-Sound n _ (parse src resolved) λ stmts.
          triple_bind (change _ λ s w. w)
            λ _. triple_finally _ (λ a s w. w) (λ e s w. w) (nested-Sound stmts n)

    exec_include-Sound :
        (n : ℕ) (p : Token.Pos) (e : Expr)
        → Keeps (Sound n) (exec_include outside sources p e nested)
    unfolding exec_include
    exec_include-Sound n p e = triple_bind (value outside sources leaves n e) λ v.
        triple_bind (text_now-Sound outside sources leaves n v) λ path.
          keep_reading (λ s. s.dir)
            λ old_dir.
              keep_reading (λ s. s.world)
                λ w.
                  keep_reading (λ s. s.including)
                    λ active.
                      let found : Str × Str = sources.resolve w old_dir path in
                      keep_if (has_text found.1 active) (keep_fail (include_cycle p path)) (
                        include_read-Sound n p path found.0 found.1 old_dir
                          (sources.read_file w found.0))

    exec_eval-Sound : (n : ℕ) (e : Expr) → Keeps (Sound n) (exec_eval outside sources e nested)
    unfolding exec_eval
    exec_eval-Sound n e = triple_bind (value outside sources leaves n e) λ v.
        triple_bind (text_now-Sound outside sources leaves n v) λ src.
          run_parsed-Sound n nested (parse src (codes "<eval>")) λ stmts. nested-Sound stmts n

    mutual
      unfolding exec_stmts

      exec_stmts-Sound : (x : Stmts) (n : ℕ) → Keeps (Sound n) (exec_stmts outside sources nested x)
      exec_stmts-Sound no_stmts n = keep_pure tt
      exec_stmts-Sound (stmt_then x xs) n =
          triple_bind (exec_stmt-Sound x n) λ _. exec_stmts-Sound xs n

      exec_stmt-Sound : (x : Stmt) (n : ℕ) → Keeps (Sound n) (exec_stmt outside sources nested x)
      exec_stmt-Sound (assign p name (present t) op e) n =
          exec_assign_index-Sound outside sources leaves n p t op e
      exec_stmt-Sound (assign p name absent op e) n =
          exec_assign-Sound outside sources leaves n name op e
      exec_stmt-Sound (expr_stmt p e) n =
          triple_bind (value outside sources leaves n e) λ _. keep_pure tt
      exec_stmt-Sound (print p es) n = exec_print-Sound outside sources leaves n es
      exec_stmt-Sound (exit_with p code) n = exec_exit-Sound outside sources leaves n code
      exec_stmt-Sound (unset p name) n = change _ λ s w. del-Sound n name s w
      exec_stmt-Sound (if_chain p arms else_block) n =
          exec_arms-Sound arms _ (λ k. in_block-Sound k λ l. exec_stmts-Sound else_block l) n
      exec_stmt-Sound (for_loop p var idx iter cond body) n =
          exec_for-Sound outside sources leaves n p var idx iter cond λ k. exec_stmts-Sound body k
      exec_stmt-Sound (target p special outputs inputs body) n =
          exec_target-Sound outside sources leaves n p special outputs inputs body
      exec_stmt-Sound (include p e) n = exec_include-Sound n p e
      exec_stmt-Sound (snippet p name body) n = change _ λ s w. w
      exec_stmt-Sound (eval_stmt p e) n = exec_eval-Sound n e
      exec_stmt-Sound (dumpvars p) n = exec_dumpvars-Sound outside sources leaves n
      exec_stmt-Sound (showhelp p) n = change _ λ s w. w
      exec_stmt-Sound (sleep p e) n =
          triple_bind (value outside sources leaves n e) λ _. keep_pure tt
      exec_stmt-Sound (export p name e) n =
          triple_bind (value outside sources leaves n e) λ v.
            change (with_program (λ q. record q { exports = insert name v q.exports })) λ s w. w
      exec_stmt-Sound (var_decl p name init) n = exec_var-Sound outside sources leaves n name init
      exec_stmt-Sound (stage p name file args) n = change _ λ s w. w

      exec_arms-Sound :
          (arms : Arms) (otherwise : Run F W (Unit {0}))
          → ((k : ℕ) → Keeps (Sound k) otherwise)
          → (n : ℕ) → Keeps (Sound n) (exec_arms outside sources nested arms otherwise)
      exec_arms-Sound no_arms otherwise h n = h n
      exec_arms-Sound (arm_then cond block arms) otherwise h n =
          triple_bind (value outside sources leaves n cond) λ v.
            keep_reading (λ s. truthy s.heap v)
              λ b.
                keep_if b (in_block-Sound n λ k. exec_stmts-Sound block k)
                  (exec_arms-Sound arms otherwise h n)

  exec_source-Sound :
      (fuel : ℕ) (stmts : Stmts) (n : ℕ) → Keeps (Sound n) (exec_source outside sources fuel stmts)
  unfolding exec_source
  exec_source-Sound zero stmts n = keep_fail _
  exec_source-Sound (suc fuel) stmts n =
      exec_stmts-Sound (exec_source outside sources fuel) (exec_source-Sound fuel) stmts n

  -- Whatever the statements of a source do, and whether they end in an error, an exit or neither: the
  -- frames that they open are closed again, and each write handle that a frame took is closed or stands
  -- with a frame that is still open, given that the templates, the built-in functions and the methods of
  -- files keep it so.
  pub exec_source_lem :
      (fuel : ℕ) (stmts : Stmts) (n : ℕ) (s : Interp F W)
      → Sound n s
      → Sound n (exec_source outside sources fuel stmts s).1
  exec_source_lem fuel stmts n s h =
      Post_state n (exec_source outside sources fuel stmts s)
        ((exec_source-Sound fuel stmts n).at s h)
