-- ===== src/Command/Args.antt =====
-- cmd/cgpipe/args.go: the cursor over a list of flags.
mod Walk
mod Tests
use cgpipe.Prelude.{
  ℕ, suc, ◌+◌, List, [], ◌∷◌, Bool, Option, none, some, if◌then◌else◌, ltb, length, drop,
}
use cgpipe.Text.{Str}

record ArgCursor : Type 0 where
  args : List Str
  i : ℕ

abbrev new_arg_cursor : List Str → ArgCursor
new_arg_cursor args = record { args = args; i = 0 }

unfoldable more : ArgCursor → Bool
more c = ltb c.i (length c.args)

abbrev first : List Str → Option Str
first [] = none
first (x ∷ xs) = some x

-- `none` where Go would panic
unfoldable cur : ArgCursor → Option Str
cur c = first (drop c.i c.args)

unfoldable advance : ArgCursor → ArgCursor
advance c = record c { i = suc c.i }

-- The value, if one follows, and the cursor behind the call.
unfoldable value : ArgCursor → Option Str × ArgCursor
value c =
    if ltb (suc c.i) (length c.args)
    then (first (drop (suc c.i) c.args), record c { i = suc (suc c.i) })
    else (none, c)
