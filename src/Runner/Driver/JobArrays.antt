-- ===== src/Runner/Driver/JobArrays.antt =====
-- driver.go: detectArrays, collapseFullArrayDeps, arrayDepDirectives and sameDeps.
mod Full
mod Collapse
mod Tests
use cgpipe.Prelude.{
  ℕ, suc, List, [], ◌∷◌, ◌++◌, Bool, true, false, not, ◌&&◌, ◌||◌, Option, none, some, list_eq,
  nat_eq, if◌then◌else◌, ◌==◌, length, take, drop,
}
use cgpipe.Prelude.Assoc.{lookup, insert, flag}
use cgpipe.Exec.{Result, ok, err}
use cgpipe.Text.{Str, codes, contains_text}
use cgpipe.Runner.Target.{Target, Pos, pos_eq, label}
use cgpipe.Runner.Driver.{
  Ref, ref_eq, Error, array_index_error, duplicate_index, many_partners, partner_not_array,
  partner_lacks, differing_deps, per_element, Env, ArrayGroup, Arrays, refs_from, is_some,
}

-- depEdge
pub record DepEdge : Type 0 where
  pub id : Str
  pub producer : Option Ref

-- The set of a list, as the code's map[string]bool.
set_of : List Str → List (Str × Bool) → List (Str × Bool)
unfolding insert
set_of [] m = m
set_of (x ∷ xs) m = set_of xs (insert x true m)

all_in : List (Str × Bool) → List (Str × Bool) → Bool
unfolding lookup
all_in [] m = true
all_in ((k, v) ∷ ks) m = flag k m && all_in ks m

unfoldable pub same_deps : List Str → List Str → Bool
unfolding set_of all_in
same_deps a b = length (set_of a []) == length (set_of b []) && all_in (set_of a []) (set_of b [])

abbrev pub or_text : Option Str → Str
or_text none = []
or_text (some s) = s

abbrev pub or_zero : Option ℕ → ℕ
or_zero none = 0
or_zero (some n) = n

abbrev pub or_group : Option ArrayGroup → ArrayGroup
or_group none = record { name = []; members = []; index = [] }
or_group (some g) = g

-- g.index[m]
abbrev pub index_in : ArrayGroup → Ref → ℕ
index_in g m = or_zero (lookup m g.index)

index_taken : ArrayGroup → ℕ → List Ref → Bool
unfolding lookup
index_taken g idx [] = false
index_taken g idx (m ∷ ms) = index_in g m == idx || index_taken g idx ms

abbrev new_group : Option ArrayGroup → Str → ArrayGroup
new_group none name = record { name = name; members = []; index = [] }
new_group (some g) name = g

-- One target with a task index joins the group of its declaration.
unfoldable pub join_group : Arrays → Pos → Ref → Str → ℕ → Result Error Arrays
unfolding lookup insert index_taken
join_group a pos t name idx =
    let g = new_group (lookup pos a.groups) name in
    if index_taken g idx g.members
    then err (duplicate_index g.name idx)
    else ok (record {
      groups =
          insert pos (record g { members = g.members ++ (t ∷ []); index = insert t idx g.index })
            a.groups;
      array_of = insert t pos a.array_of;
    })

join_indexed : Arrays → Ref → Target → Result Str (Option ℕ) → Result Error Arrays
unfolding join_group label
join_indexed a r t (err e) = err (array_index_error (label t) e)
join_indexed a r t (ok none) = ok a
join_indexed a r t (ok (some idx)) = join_group a t.pos r (label t) idx

detect_one : Env → Arrays → Ref → Target → Result Error Arrays
unfolding join_indexed contains_text
detect_one env a r t =
    if not t.has_body || t.outputs == [] || not (contains_text t.body (codes "job.array"))
    then ok a
    else join_indexed a r t (env.array_index t)

detect_from : Env → List (Ref × Target) → Arrays → Result Error Arrays
unfolding detect_one
detect_from env [] a = ok a
detect_from env ((r, t) ∷ ts) a = elim (detect_one env a r t) [
  | ok a' ↦ detect_from env ts a'
  | err e ↦ err e
]

unfoldable pub detect_arrays : Env → Result Error Arrays
unfolding detect_from refs_from
detect_arrays env =
    detect_from env (refs_from 0 env.prog.targets) (record { groups = []; array_of = [] })

-- The groups, and the base ids of those that were submitted as arrays.
module _ (arrays : Arrays) (base : List (Pos × Str)) where
  unfoldable pub group : Pos → ArrayGroup
  unfolding lookup
  group g = or_group (lookup g arrays.groups)

  unfoldable pub base_of : Pos → Str
  unfolding lookup
  base_of g = or_text (lookup g base)

  -- r.arrayOf[e.producer]
  unfoldable pub edge_group : DepEdge → Option Pos
  unfolding lookup
  edge_group e = elim e.producer [ none ↦ none | some p ↦ lookup p arrays.array_of ]

  abbrev pub in_group : Option Pos → Pos → Bool
  in_group none g = false
  in_group (some q) g = q == g

  abbrev pub note_producer : Option Ref → Bool → List (Ref × Bool) → List (Ref × Bool)
  note_producer (some p) true seen = insert p true seen
  note_producer _ _ seen = seen

  -- seen[g]: the members of the group that some edge comes from
  pub members_seen : Pos → List DepEdge → List (Ref × Bool) → List (Ref × Bool)
  unfolding edge_group insert
  members_seen g [] seen = seen
  members_seen g (e ∷ es) seen =
      members_seen g es (note_producer e.producer (in_group (edge_group e) g) seen)

  unfoldable pub is_full : List DepEdge → Pos → Bool
  unfolding members_seen group base_of
  is_full edges g =
      not (base_of g == []) && length (members_seen g edges []) == length (group g).members

  abbrev pub full_group : List DepEdge → Option Pos → Option Pos
  full_group edges none = none
  full_group edges (some g) = if is_full edges g then some g else none

  -- The second loop: `added` holds the groups whose base id is listed.
  abbrev pub is_added : Option Pos → List (Pos × Bool) → Bool
  is_added none added = false
  is_added (some g) added = flag g added

  abbrev pub list_edge : Option Pos → Bool → Str → List Str → (Pos → List Str) → List Str
  list_edge none in_list id rest rest_with = id ∷ rest
  list_edge (some g) true id rest rest_with = rest
  list_edge (some g) false id rest rest_with = base_of g ∷ rest_with g

  unfoldable pub collapse_loop : List DepEdge → List DepEdge → List (Pos × Bool) → List Str
  unfolding is_full edge_group insert lookup
  collapse_loop all [] added = []
  collapse_loop all (e ∷ es) added =
      let g = full_group all (edge_group e) in
      list_edge g (is_added g added) e.id (collapse_loop all es added)
        (λ h. collapse_loop all es (insert h true added))

  unfoldable pub collapse_full_array_deps : List DepEdge → List Str
  unfolding collapse_loop
  collapse_full_array_deps edges = collapse_loop edges edges []

  module _ (gpos : Pos) (edges : List (Ref × List DepEdge)) where
    edges_of : Ref → List DepEdge
    unfolding lookup
    edges_of m = elim (lookup m edges) [ none ↦ [] | some es ↦ es ]

    -- perGroup[a]
    edges_into : Pos → List DepEdge → ℕ
    unfolding edge_group
    edges_into a [] = 0
    edges_into a (e ∷ es) =
        let rest = edges_into a es in
        if in_group (edge_group e) a && not (a == gpos) then suc rest else rest

    -- The test of the second loop of `elemEdge`, for the edge's group.
    is_elem : List DepEdge → ℕ → Option Ref → Option Pos → Bool
    unfolding edges_into group
    is_elem all i (some p) (some a) =
        not (a == gpos) && index_in (group a) p == i && edges_into a all == 1
    is_elem all i _ _ = false

    abbrev or_gpos : Option Pos → Pos
    or_gpos none = gpos
    or_gpos (some a) = a

    elem_from : List DepEdge → ℕ → ℕ → List DepEdge → Option (Pos × ℕ)
    unfolding is_elem edge_group
    elem_from all i k [] = none
    elem_from all i k (e ∷ es) =
        let rest = elem_from all i (suc k) es in
        if is_elem all i e.producer (edge_group e) then some (or_gpos (edge_group e), k) else rest

    unfoldable pub elem_edge : Ref → Option (Pos × ℕ)
    unfolding elem_from edges_of group
    elem_edge m = elem_from (edges_of m) (index_in (group gpos) m) 0 (edges_of m)

    -- The loop that looks for one partner of all members; `none` where some member has none.
    find_partner : List Ref → Option Pos → Result Error (Option Pos)
    unfolding elem_edge group
    find_partner [] partner = ok partner
    find_partner (m ∷ ms) partner = elim (elem_edge m) [
      | none ↦ ok none
      | some (a, k) ↦ elim (in_group partner a || not (is_some partner)) [
        | true ↦ find_partner ms (some a)
        | false ↦ err (many_partners (group gpos).name)
      ]
    ]

    abbrev or_none : Option (List Str) → List Str
    or_none none = []
    or_none (some deps) = deps

    -- The loop over `have`: every member must have the dependencies of the first.
    agree :
        Error
        → (Ref → Result Error (List Str))
        → List Ref
        → Option (List Str)
        → Result Error (List Str)
    unfolding same_deps
    agree e f [] deps = ok (or_none deps)
    agree e f (m ∷ ms) deps = elim (f m) [
      | err x ↦ err x
      | ok ids ↦ elim deps [
        | none ↦ agree e f ms (some ids)
        | some first ↦ elim (same_deps first ids) [
          | true ↦ agree e f ms (some first)
          | false ↦ err e
        ]
      ]
    ]

    without : ℕ → List DepEdge → List DepEdge
    without k es = take k es ++ drop (suc k) es

    abbrev position : Option (Pos × ℕ) → ℕ
    position none = 0
    position (some (a, k)) = k

    -- A member's dependencies beside the element-wise one.
    remaining : Pos → Ref → Result Error (List Str)
    unfolding group elem_edge without edges_of collapse_full_array_deps index_taken
    remaining partner m =
        if index_taken (group partner) (index_in (group gpos) m) (group partner).members
        then ok (collapse_full_array_deps (without (position (elem_edge m)) (edges_of m)))
        else err (partner_lacks (group gpos).name (group partner).name (index_in (group gpos) m))

    aftercorr_deps : List Ref → Pos → Result Error (List Str × List Str)
    unfolding base_of group agree remaining
    aftercorr_deps stale partner =
        if base_of partner == []
        then err (partner_not_array (group gpos).name (group partner).name)
        else elim (agree (differing_deps (group gpos).name) (remaining partner) stale none) [
          | ok deps ↦ ok (deps, base_of partner ∷ [])
          | err e ↦ err e
        ]

    shared_deps : List Ref → Result Error (List Str × List Str)
    unfolding agree group edges_of collapse_full_array_deps
    shared_deps stale =
        elim (agree (per_element (group gpos).name)
          (λ m. ok (collapse_full_array_deps (edges_of m))) stale none) [
            | ok deps ↦ ok (deps, [])
            | err e ↦ err e
          ]

    -- The afterok ids and the aftercorr ids of an array submission.
    unfoldable pub array_dep_directives : List Ref → Result Error (List Str × List Str)
    unfolding find_partner aftercorr_deps shared_deps
    array_dep_directives stale = elim (find_partner stale none) [
      | err e ↦ err e
      | ok none ↦ shared_deps stale
      | ok (some partner) ↦ aftercorr_deps stale partner
    ]
