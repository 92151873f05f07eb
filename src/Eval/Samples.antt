-- ===== src/Eval/Samples.antt =====
-- Whole numbers in the place of the float64s, and small parts outside of the interpreter, for the tests.
use cgpipe.Prelude.{ℕ, [], ◌∷◌, not, none, some, ◌==◌, nat_eq, list_eq}
use cgpipe.Text.{codes}
use cgpipe.Exec.{pure}
use cgpipe.Exec.Triple.{triple_pure}
use cgpipe.Eval.Range.{ℤ, pos, int_eq, add_64, sub_64, le_64}
use cgpipe.Eval.Value.{Floats, unset_val, file_val, format_int, parse_int_64}
use cgpipe.Eval.Operators.{mul_64, div_64}
use cgpipe.Eval.Methods.{TextLibrary}
use cgpipe.Eval.Interp.{Program, Interp, Outside}
use cgpipe.Eval.Interp.Kept.{Leaves}
use cgpipe.Eval.Frames.Owned.{Sound}
use cgpipe.Eval.Execute.{Sources}

instance abbrev pub whole_floats : Floats ℤ
whole_floats = record {
  of_int = λ n. n;
  truncate = λ n. n;
  opposite = sub_64 (pos 0);
  plus = add_64;
  minus = sub_64;
  times = mul_64;
  divided = div_64;
  power = λ a b. a;
  less = λ a b. not (le_64 b a);
  at_most = le_64;
  equal = λ a b. a == b;
  format = format_int;
  parse = parse_int_64;
}

abbrev pub small_library : TextLibrary (Unit {0})
small_library = record {
  to_upper = λ s. s;
  to_lower = λ s. s;
  base = λ s. s;
  dir = λ s. s;
  abs = some;
  exists = λ w s. s == [];
  is_file = λ w s. s == [];
  is_dir = λ w s. s == [];
  replace = λ s p t. some s;
  runes = λ s. s ∷ [];
}

-- Texts without substitutions, and a file that is opened with the handle 7.
abbrev pub small_outside : Outside ℤ (Unit {0})
small_outside = record {
  interpolate = pure;
  expand_template = λ t. pure (t ∷ []);
  call_builtin = λ name vs ks. pure (file_val (codes "out.txt") (codes "w") (some 7));
  file_method = λ v name vs ks. pure unset_val;
  library = small_library;
}

pub small_outside-Leaves : (n : ℕ) → Leaves ℤ (Unit {0}) small_outside (Sound n)
small_outside-Leaves n = record {
  heap = λ h s p. p;
  interpolate = λ t. triple_pure t;
  expand = λ t. triple_pure (t ∷ []);
  builtin = λ name vs ks. triple_pure (file_val (codes "out.txt") (codes "w") (some 7));
  file = λ v name vs ks. triple_pure unset_val;
}

abbrev pub no_sources : Sources (Unit {0})
no_sources = record {
  resolve = λ w dir path. (path, path);
  read_file = λ w path. none;
  dir_of = λ s. s;
}

abbrev pub empty_program : Program ℤ
empty_program = record {
  targets = [];
  default_goals = [];
  first_output = [];
  pre = none;
  post = none;
  setup = none;
  teardown = none;
  postsubmit = none;
  snippets = [];
  help = [];
  stages = [];
  exports = [];
}

-- The interpreter with the root frame only.
abbrev pub started : Interp ℤ (Unit {0})
started = record {
  dir = [];
  scope = [] ∷ [];
  handles = [] ∷ [];
  owned = [];
  closed = [];
  heap = [];
  out = [];
  program = empty_program;
  including = [];
  world = tt;
}
