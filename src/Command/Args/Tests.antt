-- ===== src/Command/Args/Tests.antt =====
-- The theorem on the cursor at `-n 4`.
use cgpipe.Prelude.{List, [], ◌∷◌, none, some, ◌≡◌}
use cgpipe.Text.{Str, codes}
use cgpipe.Command.Args.{cur, value}
use cgpipe.Command.Args.Walk.{value_lem}

abbrev sub_command : List Str
sub_command = codes "sub" ∷ []

value_lem_example :
    (cur (record { args = codes "sub" ∷ codes "-n" ∷ codes "4" ∷ []; i = 1 }) ≡ some (codes "-n"))
    × (value (record { args = codes "sub" ∷ codes "-n" ∷ codes "4" ∷ []; i = 1 })
        ≡ (some (codes "4"), record { args = codes "sub" ∷ codes "-n" ∷ codes "4" ∷ []; i = 3 }))
    × (value (record { args = codes "sub" ∷ codes "-n" ∷ []; i = 1 })
        ≡ (none, record { args = codes "sub" ∷ codes "-n" ∷ []; i = 1 }))
value_lem_example = value_lem sub_command [] (codes "-n") (codes "4")
