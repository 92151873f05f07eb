-- ===== src/Eval/Scope.antt =====
-- internal/eval/value.go: Scope. A scope is the list of its frames, the innermost first and the root
-- last; a frame is a map from names to values. The write handles of a frame are left out.
pub mod Laws
mod Tests
use mathlib.Core.Option
use cgpipe.Prelude.{
  ℕ, zero, suc, ◌-◌, List, [], ◌∷◌, Bool, true, false, ◌||◌, Option, none, some, list_eq, nat_eq,
  if◌then◌else◌, length,
}
use cgpipe.Prelude.Assoc.{lookup, insert, remove}
use cgpipe.Text.{Str, codes, has_prefix}

-- isReservedSetting
unfoldable pub is_reserved_setting : Str → Bool
unfolding has_prefix
is_reserved_setting name = has_prefix name (codes "job.") || has_prefix name (codes "cgp.")

abbrev pub frame_or : Option ℕ → ℕ → ℕ
frame_or (some i) default = i
frame_or none default = default

module _ {ℓ} {V : Type ℓ} where
  abbrev pub or_else : Option V → Option V → Option V
  or_else (some v) rest = some v
  or_else none rest = rest

  abbrev pub binds : Option V → Bool
  binds (some v) = true
  binds none = false

  abbrev new_scope : List (List (Str × V))
  new_scope = [] ∷ []

  abbrev pub child : List (List (Str × V)) → List (List (Str × V))
  child s = [] ∷ s

  -- The position of the root among the frames.
  abbrev pub root : List (List (Str × V)) → ℕ
  root s = length s - 1

  unfoldable pub get : Str → List (List (Str × V)) → Option V
  unfolding lookup
  get name [] = none
  get name (f ∷ fs) = or_else (lookup name f) (get name fs)

  unfoldable pub has : Str → List (List (Str × V)) → Bool
  unfolding get
  has name s = binds (get name s)

  -- A change of the frame at a position.
  unfoldable pub update :
      (List (Str × V) → List (Str × V)) → ℕ → List (List (Str × V)) → List (List (Str × V))
  update change i [] = []
  update change zero (f ∷ fs) = change f ∷ fs
  update change (suc i) (f ∷ fs) = f ∷ update change i fs

  unfoldable pub set : Str → V → List (List (Str × V)) → List (List (Str × V))
  unfolding insert update
  set name v s = update (insert name v) 0 s

  -- frameOf, by the frame's position
  unfoldable pub frame_of : Str → List (List (Str × V)) → Option ℕ
  unfolding lookup
  frame_of name [] = none
  frame_of name (f ∷ fs) =
      if binds (lookup name f) then some 0 else Option.map suc (frame_of name fs)

  -- The frame in which `assign` binds the name.
  unfoldable pub home : Str → List (List (Str × V)) → ℕ
  unfolding frame_of is_reserved_setting
  home name s = frame_or (frame_of name s) (if is_reserved_setting name then root s else 0)

  -- assign, with the position of the frame that it returns
  unfoldable pub assign : Str → V → List (List (Str × V)) → List (List (Str × V)) × ℕ
  unfolding home insert update
  assign name v s = (update (insert name v) (home name s) s, home name s)

  abbrev pub del_at : Option ℕ → Str → List (List (Str × V)) → List (List (Str × V))
  del_at none name s = s
  del_at (some i) name s = update (remove name) i s

  unfoldable pub del : Str → List (List (Str × V)) → List (List (Str × V))
  unfolding frame_of remove update
  del name s = del_at (frame_of name s) name s

  -- The entries of a frame written over a map.
  unfoldable pub put_all : List (Str × V) → List (Str × V) → List (Str × V)
  unfolding insert
  put_all [] m = m
  put_all ((k, v) ∷ f) m = insert k v (put_all f m)

  unfoldable pub flatten : List (List (Str × V)) → List (Str × V)
  unfolding put_all
  flatten [] = []
  flatten (f ∷ fs) = put_all f (flatten fs)

  unfoldable pub clone : List (List (Str × V)) → List (List (Str × V))
  unfolding flatten
  clone s = flatten s ∷ []
