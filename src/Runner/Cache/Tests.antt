-- ===== src/Runner/Cache/Tests.antt =====
-- The theorem on the cache at a file that is removed during a build.
use cgpipe.Prelude.{ℕ, zero, suc, [], ◌∷◌, none, some, ◌≡◌}
use cgpipe.Text.{Str, codes}
use cgpipe.Runner.Cache.{FileStat, new_cache, stat, stat_all}
use cgpipe.Runner.Cache.Fixed.{stat_fixed}

abbrev removed_later : ℕ → Str → FileStat
removed_later zero p = some 3
removed_later (suc zero) p = some 3
removed_later (suc (suc n)) p = none

abbrev here : Str → Str
here p = codes "."

stat_fixed_example :
    (stat removed_later here (codes "a") (
      stat_all removed_later here
        (codes "b" ∷ [])
        (stat removed_later here (codes "a") new_cache).1)).0
    ≡ (stat removed_later here (codes "a") new_cache).0
stat_fixed_example = stat_fixed removed_later here (codes "a") (codes "b" ∷ []) new_cache
