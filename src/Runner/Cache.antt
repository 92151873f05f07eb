-- ===== src/Runner/Cache.antt =====
-- cache.go: the cache of file times. What os.Stat answers at each call is a parameter: the n-th call
-- has the n-th answer. filepath.Dir is a parameter too.
mod Fixed
mod Tests
use cgpipe.Prelude.{
  ℕ, suc, List, [], ◌∷◌, Bool, true, false, Option, none, some, list_eq, nat_eq, if◌then◌else◌,
}
use cgpipe.Prelude.Assoc.{lookup, insert, flag}
use cgpipe.Text.{Str}

-- fileStat: the mtime, or `none` where there is no file
abbrev FileStat : Type 0
FileStat = Option ℕ

-- Cache, and the number of calls of os.Stat so far
record Cache : Type 0 where
  dirs : List (Str × Bool)
  files : List (Str × FileStat)
  calls : ℕ

abbrev new_cache : Cache
new_cache = record { dirs = []; files = []; calls = 0 }

module _ (os_stat : ℕ → Str → FileStat) (dir_of : Str → Str) where
  -- The stat of the directory, when the directory is new.
  unfoldable refresh : Str → Cache → Cache
  unfolding lookup insert
  refresh d c =
      if flag d c.dirs then c else record c { dirs = insert d true c.dirs; calls = suc c.calls }

  unfoldable read_file : Str → Cache → FileStat × Cache
  unfolding insert
  read_file path c = (
    os_stat c.calls path,
    record c { files = insert path (os_stat c.calls path) c.files; calls = suc c.calls },
  )

  abbrev or_read : Option FileStat → Cache → (FileStat × Cache) → FileStat × Cache
  or_read (some r) c fresh = (r, c)
  or_read none c fresh = fresh

  unfoldable stat : Str → Cache → FileStat × Cache
  unfolding refresh read_file lookup
  stat path c = or_read (lookup path c.files) c (read_file path (refresh (dir_of path) c))

  -- The cache after a list of lookups.
  unfoldable stat_all : List Str → Cache → Cache
  unfolding stat
  stat_all [] c = c
  stat_all (p ∷ ps) c = stat_all ps (stat p c).1
