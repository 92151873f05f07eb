-- ===== src/Eval/Start.antt =====
-- internal/eval/eval.go: Run, seedJobDefaults and ExportNames. The closing of what a script left open at
-- the very end is outside of the model.
use cgpipe.Prelude.{ℕ, List, [], ◌∷◌, ◌++◌, none, if◌then◌else◌}
use cgpipe.Text.{Str, codes}
use cgpipe.Exec.{pure, modify, ◌>>=◌, ◌>>◌}
use cgpipe.Syntax.Stmt.{
  Stmt, if_chain, for_loop, export, Stmts, no_stmts, stmt_then, Arms, no_arms, arm_then, File,
}
use cgpipe.Eval.Range.{pos}
use cgpipe.Eval.Value.{Floats, Value, int_val, list_val, no_values}
use cgpipe.Eval.Interp.{Interp, Run, Outside}
use cgpipe.Eval.Frames.{has_text, bind}
use cgpipe.Eval.Execute.{Sources, exec_source}

-- ConfigFile
pub record ConfigFile : Type 0 where
  pub dir : Str
  pub file : File

module _ {F W : Type 0} where
  unfoldable pub seed_job_defaults : Interp F W → Interp F W
  unfolding bind
  seed_job_defaults s = bind (codes "job.setup") (list_val no_values) (
      bind (codes "job.custom") (list_val no_values) (bind (codes "job.procs") (int_val (pos 1)) s))

  abbrev pub bind_all : List (Str × Value F) → Interp F W → Interp F W
  bind_all [] s = s
  bind_all ((name, v) ∷ vars) s = bind_all vars (bind name v s)

  abbrev pub new_interp : W → Str → Str → Interp F W
  new_interp w dir help = record {
    dir = dir;
    scope = [] ∷ [];
    handles = [] ∷ [];
    owned = [];
    closed = [];
    heap = [];
    out = [];
    program = record {
      targets = [];
      default_goals = [];
      first_output = [];
      pre = none;
      post = none;
      setup = none;
      teardown = none;
      postsubmit = none;
      snippets = [];
      help = help;
      stages = [];
      exports = [];
    };
    including = [];
    world = w;
  }

module _ {F W : Type 0} ⦃floats : Floats F⦄ (outside : Outside F W) (sources : Sources W)
    (fuel : ℕ) where
  unfoldable pub exec_configs : List ConfigFile → Run F W (Unit {0})
  unfolding ◌>>=◌ pure modify exec_source
  exec_configs [] = pure tt
  exec_configs (c ∷ cs) =
      let rest = exec_configs cs in
      modify (λ s. record s { dir = c.dir })
      >> exec_source outside sources fuel c.file.stmts
      >> rest

  -- Run, from a new interpreter
  unfoldable pub run : Str → List ConfigFile → List (Str × Value F) → File → Run F W (Unit {0})
  unfolding ◌>>=◌ modify seed_job_defaults bind exec_configs exec_source
  run dir configs vars file = do
    modify seed_job_defaults
    exec_configs configs
    modify (λ s. record s { dir = dir })
    modify (bind_all vars)
    exec_source outside sources fuel file.stmts

-- ExportNames, with the names seen so far
unfoldable mutual
  pub export_names : Stmts → List Str → List Str
  export_names no_stmts names = names
  export_names (stmt_then x xs) names = export_names xs (stmt_exports x names)

  pub stmt_exports : Stmt → List Str → List Str
  stmt_exports (export p name e) names = if has_text name names then names else names ++ (name ∷ [])
  stmt_exports (if_chain p arms else_block) names = export_names else_block (arm_exports arms names)
  stmt_exports (for_loop p var idx iter cond body) names = export_names body names
  stmt_exports _ names = names

  pub arm_exports : Arms → List Str → List Str
  arm_exports no_arms names = names
  arm_exports (arm_then cond block arms) names = arm_exports arms (export_names block names)
