-- ===== src/Runner/Cache/Fixed.antt =====
-- Repeated lookups in the cache of cache.go.
use cgpipe.Prelude.{
  ℕ, List, [], ◌∷◌, none, some, list_eq, nat_eq, if◌then◌else◌, ◌≡◌, refl, arith, inl, inr,
  Option-cases, Bool-cases, ◌==◌, eq_iff,
}
use cgpipe.Prelude.Assoc.{lookup, flag, lookup-insert, lookup-insert_self}
use cgpipe.Text.{Str}
use cgpipe.Runner.Cache.{FileStat, Cache, refresh, read_file, stat, stat_all}

module _ (os_stat : ℕ → Str → FileStat) (dir_of : Str → Str) where
  refresh-files : (d : Str) (c : Cache) → (refresh os_stat dir_of d c).files ≡ c.files
  unfolding refresh
  refresh-files d c = elim (Bool-cases (flag d c.dirs)) [ inl e ↦ rw e refl | inr e ↦ rw e refl ]

  stat_here :
      (p : Str) (c : Cache)
      → lookup p (stat os_stat dir_of p c).1.files ≡ some (stat os_stat dir_of p c).0
  unfolding stat read_file
  stat_here p c = elim (Option-cases (lookup p c.files)) [
    | inr (r, e) ↦ rw e e
    | inl e ↦ rw e (lookup-insert_self p _ (refresh os_stat dir_of (dir_of p) c).files)
  ]

  stat_keeps :
      (p q : Str) (r : FileStat) (c : Cache)
      → lookup p c.files ≡ some r
      → lookup p (stat os_stat dir_of q c).1.files ≡ some r
  unfolding stat read_file
  stat_keeps p q r c h = elim (Option-cases (lookup q c.files)) [
    | inr (x, e) ↦ rw e h
    | inl e ↦ rw (e, lookup-insert, refresh-files) (kept _ e)
  ]
    where
      kept :
          (x : FileStat)
          → lookup q c.files ≡ none
          → (if q == p then some x else lookup p c.files) ≡ some r
      kept x e = ground (arith, eq_iff q p)

  stat_all-keeps :
      (p : Str) (qs : List Str) (r : FileStat) (c : Cache)
      → lookup p c.files ≡ some r
      → lookup p (stat_all os_stat dir_of qs c).files ≡ some r
  unfolding stat_all
  stat_all-keeps p [] r c h = h
  stat_all-keeps p (q ∷ qs) r c h =
      stat_all-keeps p qs r (stat os_stat dir_of q c).1 (stat_keeps p q r c h)

  stat_known :
      (p : Str) (r : FileStat) (s : Cache)
      → lookup p s.files ≡ some r
      → (stat os_stat dir_of p s).0 ≡ r
  unfolding stat
  stat_known p r s e = rw e refl

  -- Once a path was looked up, every later lookup of it gives the same answer, whatever was looked
  -- up between and whatever became of the file.
  pub stat_fixed :
      (p : Str) (qs : List Str) (c : Cache)
      → (stat os_stat dir_of p (stat_all os_stat dir_of qs (stat os_stat dir_of p c).1)).0
        ≡ (stat os_stat dir_of p c).0
  stat_fixed p qs c =
      stat_known p _ (stat_all os_stat dir_of qs (stat os_stat dir_of p c).1) (
        stat_all-keeps p qs (stat os_stat dir_of p c).0 (stat os_stat dir_of p c).1 (stat_here p c))
