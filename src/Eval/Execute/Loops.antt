-- ===== src/Eval/Execute/Loops.antt =====
-- A loop whose condition stays true is stopped.
use cgpipe.Prelude.{ℕ, zero, suc, true, ◌≡◌, refl}
use cgpipe.Text.{Str}
use cgpipe.Exec.{ok, err}
use cgpipe.Syntax.Token
use cgpipe.Syntax.Ast.{Expr, absent, present}
use cgpipe.Eval.Value.{Floats, Value, truthy}
use cgpipe.Eval.Interp.{Interp, too_many_turns, Run, Outside, eval}
use cgpipe.Eval.Frames.{in_block}
use cgpipe.Eval.Execute.{Sources, max_loop_iterations, while_turns, exec_for}

module _ {F W : Type 0} ⦃floats : Floats F⦄ (outside : Outside F W) (sources : Sources W) where
  -- The condition has a value, and it is true.
  abbrev pub Holds : Expr → Interp F W → Type 0
  Holds cond s =
      (v : Value F) × (t : Interp F W) × (eval outside cond s ≡ (ok v, t))
      × (truthy t.heap v ≡ true)

  -- The block ends without an error.
  abbrev pub Passes : Run F W (Unit {0}) → Interp F W → Type 0
  Passes body s = (t : Interp F W) × (in_block body s ≡ (ok tt, t))

  while_turns_lem :
      (p : Token.Pos) (cond : Expr) (body : Run F W (Unit {0}))
      → ((s : Interp F W) → Holds cond s)
      → ((s : Interp F W) → Passes body s)
      → (n : ℕ) (s : Interp F W)
      → (while_turns outside sources p cond body n s).0 ≡ err (too_many_turns p)
  unfolding while_turns
  while_turns_lem p cond body hc hb zero s = refl
  while_turns_lem p cond body hc hb (suc n) s =
      let (v, t, e, true_now) = hc s in
      let (u, run) = hb t in rw (e, true_now, run) (while_turns_lem p cond body hc hb n u)

  -- A loop whose condition is true in every state, and whose block always ends without an error, is ended
  -- by the error that it has too many turns.
  pub exec_for_lem :
      (p : Token.Pos) (var idx : Str) (cond : Expr) (body : Run F W (Unit {0})) (s : Interp F W)
      → ((s : Interp F W) → Holds cond s)
      → ((s : Interp F W) → Passes body s)
      → (exec_for outside sources p var idx absent (present cond) body s).0 ≡ err (too_many_turns p)
  unfolding exec_for
  exec_for_lem p var idx cond body s hc hb = while_turns_lem p cond body hc hb max_loop_iterations s
