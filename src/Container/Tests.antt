-- ===== src/Container/Tests.antt =====
-- The theorem on mounts at a small job.
use mathlib.Core.List.{Memᴰ}
use cgpipe.Prelude.{[], ◌∷◌, false, some, ◌≢◌, ◌↔◌}
use cgpipe.Prelude.Distinct.{HasNoRepeat}
use cgpipe.Text.{Str, codes}
use cgpipe.Container.{Spec, Library, compute_mounts}
use cgpipe.Container.Mounts.{IsNamed, compute_mounts_lem}

abbrev plain_library : Library
plain_library = record {
  abs = λ p. some p;
  dir = λ p. codes "/data";
  to_lower = λ s. s;
  rune_text = λ n. n ∷ [];
}

abbrev small_job : Spec
small_job = record {
  engine = codes "docker";
  image = codes "img";
  working_dir = codes "/w";
  body_dir = [];
  shell = [];
  gpu = [];
  user_map = false;
  binds = codes "/w" ∷ [];
  inputs = codes "/data/in" ∷ [];
  outputs = codes "/data/out" ∷ [];
  env = [];
  opts = [];
}

compute_mounts_lem_example :
    HasNoRepeat (compute_mounts plain_library small_job (codes "/tmp") (codes "/w"))
    × ((d : Str)
        → Memᴰ d (compute_mounts plain_library small_job (codes "/tmp") (codes "/w"))
          ↔ ((d ≢ []) × IsNamed plain_library small_job (codes "/tmp") (codes "/w") d))
compute_mounts_lem_example = compute_mounts_lem plain_library small_job (codes "/tmp") (codes "/w")
