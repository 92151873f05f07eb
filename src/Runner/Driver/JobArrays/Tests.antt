-- ===== src/Runner/Driver/JobArrays/Tests.antt =====
-- The collapse of edges at an array of two tasks.
use mathlib.Core.List.{Memᴰ}
use cgpipe.Prelude.{List, [], ◌∷◌, none, some, list_eq, ◌↔◌, ◌≡◌, refl}
use cgpipe.Text.{Str, codes}
use cgpipe.Runner.Target.{Pos, no_pos, pos_eq}
use cgpipe.Runner.Driver.{Arrays, rule, ref_eq}
use cgpipe.Runner.Driver.JobArrays.{DepEdge, collapse_full_array_deps}
use cgpipe.Runner.Driver.JobArrays.Full.{StandsFor}
use cgpipe.Runner.Driver.JobArrays.Collapse.{collapse_full_array_deps_lem}

abbrev two_tasks : Arrays
two_tasks = record {
  groups =
      (
        no_pos,
        record {
          name = codes "a";
          members = rule 0 ∷ rule 1 ∷ [];
          index = (rule 0, 1) ∷ (rule 1, 2) ∷ [];
        },
      )
      ∷ [];
  array_of = (rule 0, no_pos) ∷ (rule 1, no_pos) ∷ [];
}

abbrev base_ids : List (Pos × Str)
base_ids = (no_pos, codes "7") ∷ []

abbrev three_edges : List DepEdge
three_edges =
    record { id = codes "7_1"; producer = some (rule 0) }
    ∷ record { id = codes "9"; producer = none }
    ∷ record { id = codes "7_2"; producer = some (rule 1) }
    ∷ []

collapsed_edges :
    collapse_full_array_deps two_tasks base_ids three_edges ≡ codes "7" ∷ codes "9" ∷ []
unfolding collapse_full_array_deps
collapsed_edges = refl

-- One edge of two: the array is not full.
one_task_is_left :
    collapse_full_array_deps two_tasks base_ids
      (record { id = codes "7_1"; producer = some (rule 0) } ∷ [])
    ≡ codes "7_1" ∷ []
unfolding collapse_full_array_deps
one_task_is_left = refl

collapse_full_array_deps_lem_example :
    Memᴰ (codes "7") (collapse_full_array_deps two_tasks base_ids three_edges)
    ↔ ((e : DepEdge) × Memᴰ e three_edges × StandsFor two_tasks base_ids three_edges e (codes "7"))
collapse_full_array_deps_lem_example =
    collapse_full_array_deps_lem two_tasks base_ids three_edges (codes "7")
