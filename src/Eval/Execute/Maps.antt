-- ===== src/Eval/Execute/Maps.antt =====
-- internal/eval/eval.go: what execAssignIndex leaves of the maps and of the names.
use cgpipe.Prelude.{ℕ, ◌<◌, length, [], ◌&&◌, ◌==◌, nat_eq, list_eq, some, if◌then◌else◌, ◌≡◌, ◌≢◌}
use cgpipe.Text.{Str}
use cgpipe.Exec.{ok, continue, ◌>>=◌, gets, modify, pure}
use cgpipe.Syntax.Token
use cgpipe.Syntax.Ast.{Expr, index, ident}
use cgpipe.Eval.Scope
use cgpipe.Eval.Scope.Laws.{get-assign}
use cgpipe.Eval.Value.{Floats, Value, str_val, map_val, map_get, map_at}
use cgpipe.Eval.Interp.{Interp, Outside, eval}
use cgpipe.Eval.Frames.{assigned, entry_by, change_map, map_named}
use cgpipe.Eval.Frames.Maps.{written, map_get-change_map}
use cgpipe.Eval.Execute.{Sources, exec_assign_index}

module _ {F W : Type 0} ⦃floats : Floats F⦄ (outside : Outside F W) (sources : Sources W) where
  -- The state behind the assignment.
  abbrev stored : Token.Kind → Str → Str → Value F → ℕ → Interp F W → Interp F W
  stored op name k v m s =
      assigned name (map_val m) (record s { heap = change_map m (entry_by op k v) s.heap })

  exec_assign_index-stored :
      (p q r : Token.Pos) (name : Str) (i e : Expr) (op : Token.Kind) (k : Str) (v : Value F)
      (m : ℕ) (s s1 s2 : Interp F W)
      → eval outside i s ≡ (ok (str_val k), s1)
      → Scope.get name s1.scope ≡ some (map_val m)
      → eval outside e s1 ≡ (ok v, s2)
      → exec_assign_index outside sources p (index q (ident r name) i) op e s
        ≡ (ok tt, stored op name k v m s2)
  unfolding exec_assign_index ◌>>=◌ gets modify pure map_named
  exec_assign_index-stored p q r name i e op k v m s s1 s2 key bound value =
      rw (key, continue, bound, map_named, value)

  -- Where the index of `name[i] = e` is evaluated to a text, the name stands for a map then, and `e`
  -- is evaluated to a value and leaves the map on the heap and a frame in the scope, the statement
  -- returns, and leaves that map, and not a copy of it, under the name. The assignment is seen through
  -- every reference to that map, and through these only: the key has the new value, for `?=` the one
  -- it had, if it had one, and for `+=` a list that has grown by it; every other key of the map, every
  -- other map and every other name is as the evaluation of `e` left it.
  pub exec_assign_index_lem :
      (p q r : Token.Pos) (name : Str) (i e : Expr) (op : Token.Kind) (k : Str) (v : Value F)
      (m : ℕ) (s s1 s2 : Interp F W)
      → eval outside i s ≡ (ok (str_val k), s1)
      → Scope.get name s1.scope ≡ some (map_val m)
      → eval outside e s1 ≡ (ok v, s2)
      → m < length s2.heap
      → s2.scope ≢ []
      → (s3 : Interp F W) × (exec_assign_index outside sources p (index q (ident r name) i) op e s
          ≡ (ok tt, s3))
        × ((a : ℕ) (asked : Str)
            → map_get asked (map_at a s3.heap) ≡ (
                if a == m && asked == k
                then written op (map_get k (map_at m s2.heap)) v
                else map_get asked (map_at a s2.heap)))
        × ((asked : Str)
            → Scope.get asked s3.scope
              ≡ (if name == asked then some (map_val m) else Scope.get asked s2.scope))
  unfolding assigned
  exec_assign_index_lem p q r name i e op k v m s s1 s2 key bound value inside some_frame = (
    stored op name k v m s2,
    exec_assign_index-stored p q r name i e op k v m s s1 s2 key bound value,
    λ a asked. map_get-change_map op m k v s2.heap a asked inside,
    λ asked. get-assign name asked (map_val m) s2.scope some_frame,
  )
