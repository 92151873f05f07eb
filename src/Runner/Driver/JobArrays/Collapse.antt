-- ===== src/Runner/Driver/JobArrays/Collapse.antt =====
-- What the collapse of the edges to an array keeps: every edge, by its own id or by the array's.
use mathlib.Core.List.{Memᴰ}
use mathlib.Core.List.Memᴰ
use cgpipe.Prelude.{
  List, [], ◌∷◌, Bool, true, false, Option, none, some, list_eq, eq_iff, if◌then◌else◌, ◌==◌, ◌≡◌,
  refl, sym, ap, ◌∙◌, ◌⊎◌, inl, inr, ◌↔◌, subst,
}
use cgpipe.Prelude.Assoc.{lookup, insert, flag, flag-insert}
use cgpipe.Text.{Str}
use cgpipe.Runner.Target.{Pos, pos_eq}
use cgpipe.Runner.Driver.{Arrays}
use cgpipe.Runner.Driver.JobArrays.Full.{StandsFor, listed_as, full_of, listed_iff}
use cgpipe.Runner.Driver.JobArrays.{
  DepEdge, base_of, is_added, list_edge, collapse_loop, collapse_full_array_deps,
}

module _ (arrays : Arrays) (base : List (Pos × Str)) where
  Listed : Option Pos → Str → List (Pos × Bool) → List Str → Type 0
  Listed g id added ids =
      Memᴰ (listed_as arrays base g id) ids ⊎ (is_added arrays base g added ≡ true)

  -- The edge at the front is listed.
  Listed-front :
      (g : Option Pos) (id : Str) (added : List (Pos × Bool)) (rest : List Str)
      (rest_with : Pos → List Str) (b : Bool)
      → is_added arrays base g added ≡ b
      → Listed g id added (list_edge arrays base g b id rest rest_with)
  unfolding Listed
  Listed-front none id added rest rest_with b e = inl (Memᴰ.head refl)
  Listed-front (some g) id added rest rest_with true e = inr e
  Listed-front (some g) id added rest rest_with false e = inl (Memᴰ.head refl)

  Listed-tail :
      (g : Option Pos) (id x : Str) (added : List (Pos × Bool)) (ids : List Str)
      → Listed g id added ids
      → Listed g id added (x ∷ ids)
  unfolding Listed
  Listed-tail g id x added ids (inl m) = inl (Memᴰ.tail m)
  Listed-tail g id x added ids (inr e) = inr e

  -- A group that was added just now is the one whose base id is at the front.
  Listed-insert :
      (g : Option Pos) (id : Str) (h : Pos) (added : List (Pos × Bool)) (ids : List Str)
      → Listed g id (insert h true added) ids
      → Listed g id added (base_of arrays base h ∷ ids)
  unfolding Listed
  Listed-insert g id h added ids (inl m) = inl (Memᴰ.tail m)
  Listed-insert none id h added ids (inr e) = cc e
  Listed-insert (some g) id h added ids (inr e) =
      by_key (h == g) refl (sym (flag-insert h g true added) ∙ e)
    where
      by_key :
          (b : Bool)
          → (h == g) ≡ b
          → (if b then true else flag g added) ≡ true
          → Listed (some g) id added (base_of arrays base h ∷ ids)
      by_key true q e' = inl (Memᴰ.head (ap (base_of arrays base) (sym ((eq_iff h g).0 q))))
      by_key false q e' = inr e'

  Listed-behind :
      (h g : Option Pos) (id x : Str) (added : List (Pos × Bool)) (rest : List Str)
      (rest_with : Pos → List Str) (b : Bool)
      → Listed h x added rest
      → ((k : Pos) → Listed h x (insert k true added) (rest_with k))
      → Listed h x added (list_edge arrays base g b id rest rest_with)
  Listed-behind h none id x added rest rest_with b here after = Listed-tail h x id added rest here
  Listed-behind h (some g) id x added rest rest_with true here after = here
  Listed-behind h (some g) id x added rest rest_with false here after =
      Listed-insert h x g added (rest_with g) (after g)

  loop-Listed :
      (all es : List DepEdge) (added : List (Pos × Bool)) (e : DepEdge)
      → Memᴰ e es
      → Listed (full_of arrays base all e) e.id added (collapse_loop arrays base all es added)
  unfolding collapse_loop
  loop-Listed all [] added e m = absurd (Memᴰ.not-nil m)
  loop-Listed all (d ∷ es) added e (Memᴰ.head q) =
      subst
        (λ x.
          Listed (full_of arrays base all x) x.id added
            (collapse_loop arrays base all (d ∷ es) added))
        (sym q) (Listed-front (full_of arrays base all d) d.id added _ _ _ refl)
  loop-Listed all (d ∷ es) added e (Memᴰ.tail m) =
      Listed-behind (full_of arrays base all e) (full_of arrays base all d) d.id e.id added _ _ _
        (loop-Listed all es added e m) λ k. loop-Listed all es (insert k true added) e m

  IsSource : List DepEdge → List DepEdge → Str → Type 0
  IsSource all es id =
      (e : DepEdge) × Memᴰ e es × (listed_as arrays base (full_of arrays base all e) e.id ≡ id)

  IsSource-tail :
      (all es : List DepEdge) (d : DepEdge) (id : Str)
      → IsSource all es id
      → IsSource all (d ∷ es) id
  unfolding IsSource
  IsSource-tail all es d id (e, m, q) = (e, Memᴰ.tail m, q)

  IsSource-front :
      (all es : List DepEdge) (d : DepEdge) (id : Str)
      → listed_as arrays base (full_of arrays base all d) d.id ≡ id
      → IsSource all (d ∷ es) id
  unfolding IsSource
  IsSource-front all es d id q = (d, Memᴰ.head refl, q)

  listed-source :
      (g : Option Pos) (id x : Str) (rest : List Str) (rest_with : Pos → List Str) (b : Bool)
      (P : Type 0)
      → (listed_as arrays base g id ≡ x → P)
      → (Memᴰ x rest → P)
      → ((k : Pos) → Memᴰ x (rest_with k) → P)
      → Memᴰ x (list_edge arrays base g b id rest rest_with)
      → P
  listed-source none id x rest rest_with b P front here after (Memᴰ.head q) = front (sym q)
  listed-source none id x rest rest_with b P front here after (Memᴰ.tail m) = here m
  listed-source (some g) id x rest rest_with true P front here after m = here m
  listed-source (some g) id x rest rest_with false P front here after (Memᴰ.head q) = front (sym q)
  listed-source (some g) id x rest rest_with false P front here after (Memᴰ.tail m) = after g m

  loop-IsSource :
      (all es : List DepEdge) (added : List (Pos × Bool)) (id : Str)
      → Memᴰ id (collapse_loop arrays base all es added)
      → IsSource all es id
  unfolding collapse_loop
  loop-IsSource all [] added id m = absurd (Memᴰ.not-nil m)
  loop-IsSource all (d ∷ es) added id m =
      listed-source (full_of arrays base all d) d.id id _ _ _ (IsSource all (d ∷ es) id)
        (IsSource-front all es d id)
        (λ k. IsSource-tail all es d id (loop-IsSource all es added id k))
        (λ g k. IsSource-tail all es d id (loop-IsSource all es (insert g true added) id k)) m

  nothing_added : (g : Option Pos) → is_added arrays base g [] ≡ true → ⊥
  unfolding lookup
  nothing_added none e = cc e
  nothing_added (some g) e = cc e

  Listed-nothing :
      (g : Option Pos) (id : Str) (ids : List Str)
      → Listed g id [] ids
      → Memᴰ (listed_as arrays base g id) ids
  unfolding Listed
  Listed-nothing g id ids (inl m) = m
  Listed-nothing g id ids (inr e) = absurd (nothing_added g e)

  collapse_listed :
      (edges : List DepEdge) (id : Str)
      → Memᴰ id (collapse_full_array_deps arrays base edges) ↔ IsSource edges edges id
  unfolding collapse_full_array_deps IsSource
  collapse_listed edges id = (
    loop-IsSource edges edges [] id,
    λ (e, m, q).
        Memᴰ.cast (sym q)
          (Listed-nothing (full_of arrays base edges e) e.id _ (loop-Listed edges edges [] e m)),
  )

  -- An id is among the dependencies of a job exactly when it stands for one of its edges: as the
  -- base id of the array that the edge comes from, where that array has a base id and the edges come
  -- from as many different tasks of it as it has, and as the edge's own id elsewhere. So no
  -- dependency is lost, and none is made up.
  pub collapse_full_array_deps_lem :
      (edges : List DepEdge) (id : Str)
      → Memᴰ id (collapse_full_array_deps arrays base edges)
        ↔ ((e : DepEdge) × Memᴰ e edges × StandsFor arrays base edges e id)
  unfolding IsSource
  collapse_full_array_deps_lem edges id = (
    λ m.
        let (e, there, q) = (collapse_listed edges id).0 m in
        (e, there, (listed_iff arrays base edges e id).0 q),
    λ (e, there, q).
        (collapse_listed edges id).1 (e, there, (listed_iff arrays base edges e id).1 q),
  )
