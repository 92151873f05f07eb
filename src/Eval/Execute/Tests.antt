-- ===== src/Eval/Execute/Tests.antt =====
-- A block that opens a file, a loop without an end, and an assignment to a key of a map.
use cgpipe.Prelude.{
  ℕ, [], ◌∷◌, ◌&&◌, true, some, nat_eq, list_eq, ◌==◌, if◌then◌else◌, ◌≡◌, refl, arith,
}
use cgpipe.Text.{Str, codes}
use cgpipe.Syntax.Token
use cgpipe.Syntax.Ast.{
  Expr, bool_lit, int_lit, string_lit, ident, index, call, absent, present, expr_then, no_exprs,
  no_kwargs,
}
use cgpipe.Syntax.Stmt.{Stmts, no_stmts, stmt_then, assign, if_chain, arm_then, no_arms}
use cgpipe.Eval.Frames.Owned.{Sound}
use cgpipe.Eval.Range.{ℤ, pos}
use cgpipe.Eval.Value.{bool_val, int_val, map_val, map_get, map_at}
use cgpipe.Eval.Interp.{Interp, too_many_turns, eval}
use cgpipe.Eval.Frames.{in_block, pushed, popped}
use cgpipe.Exec.{ok, err, pure}
use cgpipe.Eval.Execute.Loops.{Holds, Passes, exec_for_lem}
use cgpipe.Eval.Execute.{exec_source, exec_for, exec_assign_index}
use cgpipe.Eval.Execute.Maps.{exec_assign_index_lem}
use cgpipe.Eval.Frames.Maps.{written}
use cgpipe.Eval.Scope
use cgpipe.Eval.Execute.Balanced.{exec_source_lem}
use cgpipe.Eval.Samples.{whole_floats, small_outside, small_outside-Leaves, no_sources, started}

-- if true { f = open("out.txt") }
abbrev opening : Stmts
opening =
    stmt_then
      (if_chain Token.no_pos
        (arm_then (bool_lit Token.no_pos true)
          (stmt_then
            (assign Token.no_pos (codes "f") absent Token.assign (
              call Token.no_pos absent (codes "open")
                (expr_then (string_lit Token.no_pos (codes "out.txt")) no_exprs) no_kwargs))
            no_stmts)
          no_arms)
        no_stmts)
      no_stmts

exec_source_lem_example : Sound 0 (exec_source small_outside no_sources 1 opening started).1
exec_source_lem_example =
    exec_source_lem small_outside no_sources small_outside-Leaves 1 opening 0 started
      (refl, refl, λ w e. cc e)

closed_behind : (exec_source small_outside no_sources 1 opening started).1.closed ≡ 7 ∷ []
unfolding exec_source
closed_behind = refl

true_always :
    (s : Interp ℤ (Unit {0})) → Holds small_outside no_sources (bool_lit Token.no_pos true) s
unfolding eval
true_always s = (bool_val true, s, refl, refl)

ends_always : (s : Interp ℤ (Unit {0})) → Passes small_outside no_sources (pure tt) s
unfolding in_block
ends_always s = (popped (pushed s), refl)

-- for true { }
exec_for_lem_example :
    (exec_for small_outside no_sources Token.no_pos [] [] absent
      (present (bool_lit Token.no_pos true))
      (pure tt)
      started).0
    ≡ err (too_many_turns Token.no_pos)
exec_for_lem_example =
    exec_for_lem small_outside no_sources Token.no_pos [] [] (bool_lit Token.no_pos true) (pure tt)
      started true_always ends_always

-- The names `m` and `n` stand for one map, whose key `a` is 1.
abbrev with_map : Interp ℤ (Unit {0})
with_map = record started {
  scope = ((codes "m", map_val 0) ∷ (codes "n", map_val 0) ∷ []) ∷ [];
  heap = ((codes "a", int_val (pos 1)) ∷ []) ∷ [];
}

-- m["a"] = 2
abbrev key_a : Expr
key_a = string_lit Token.no_pos (codes "a")

abbrev two : Expr
two = int_lit Token.no_pos 2

abbrev item_a : Expr
item_a = index Token.no_pos (ident Token.no_pos (codes "m")) key_a

exec_assign_index_lem_example :
    (s3 : Interp ℤ (Unit {0})) × (exec_assign_index small_outside no_sources Token.no_pos item_a
        Token.assign two with_map
      ≡ (ok tt, s3))
    × ((a : ℕ) (asked : Str)
        → map_get asked (map_at a s3.heap) ≡ (
            if a == 0 && asked == codes "a"
            then written Token.assign
                (map_get (codes "a") (map_at 0 with_map.heap))
                (int_val (pos 2))
            else map_get asked (map_at a with_map.heap)))
    × ((asked : Str)
        → Scope.get asked s3.scope
          ≡ (if codes "m" == asked then some (map_val 0) else Scope.get asked with_map.scope))
unfolding eval Scope.get
exec_assign_index_lem_example =
    exec_assign_index_lem small_outside no_sources Token.no_pos Token.no_pos Token.no_pos
      (codes "m") key_a two Token.assign (codes "a") (int_val (pos 2)) 0 with_map with_map with_map
      refl refl refl (omega arith) (λ e. cc e)
