-- ===== src/Runner/Driver/Submit.antt =====
-- driver.go: submit, collectDeps, submitArrayGroup and doSubmit. `fuel` bounds the chain of
-- producers, `depth` the choice of rules and `resolve`.
pub mod Steps
pub mod Pending
pub mod Members
pub mod Once
use cgpipe.Prelude.{
  ℕ, zero, suc, List, [], ◌∷◌, ◌++◌, Bool, true, false, not, ◌&&◌, ◌||◌, Option, none, some,
  list_eq, nat_eq, if◌then◌else◌, ◌==◌,
}
use cgpipe.Prelude.Assoc.{lookup, insert, flag}
use cgpipe.Exec.{Result, ok, err, Exec, pure, fail, gets, modify, lift, ◌>>=◌, ◌>>◌, for_each}
use cgpipe.Text.{Str}
use cgpipe.Runner.Target.{Target, Pos, pos_eq, with_body}
use cgpipe.Runner.Driver.{
  Ref, ref_eq, Error, backend_error, not_array_capable, out_of_fuel, Env, Driver, M, Resolved,
  ArrayGroup, Arrays, Event, submitted, array_submitted, hook, SubmitArray, target_of, stat_exists,
  external_dep,
}
use cgpipe.Runner.Driver.Choose.{producer_for}
use cgpipe.Runner.Driver.Resolve.{resolve}
use cgpipe.Runner.Driver.JobArrays.{
  DepEdge, or_text, or_group, index_in, collapse_full_array_deps, array_dep_directives,
}

abbrev pub from_backend {ℓ} : {A : Type ℓ} → Result Str A → Result Error A
from_backend (ok a) = ok a
from_backend (err e) = err (backend_error e)

abbrev pub from_hook : Option Str → Result Error (Unit {0})
from_hook none = ok tt
from_hook (some e) = err (backend_error e)

-- if id != "" { edges = append(edges, …) }
abbrev pub add_edge : List DepEdge → Str → Option Ref → List DepEdge
add_edge edges id producer =
    if id == [] then edges else edges ++ (record { id = id; producer = producer } ∷ [])

-- The stale members of an array group, with their indices and dependencies.
pub record Stale : Type 0 where
  pub members : List Ref
  pub indices : List ℕ
  pub edges : List (Ref × List DepEdge)

module _ (env : Env) (arrays : Arrays) where
  unfoldable pub call_submit : Ref → List Str → M Str
  unfolding ◌>>=◌
  call_submit t deps = do
    s ← gets (λ s. s)
    id ← lift (from_backend (env.backend.submit s.trace t deps))
    modify (λ s. record s { trace = submitted t deps id ∷ s.trace })
    pure id

  -- The @postsubmit hook, if the program has one.
  unfoldable pub run_hook : Ref → Str → M (Unit {0})
  unfolding with_body ◌>>=◌
  run_hook t id =
      if with_body env.prog.postsubmit
      then (do
        s ← gets (λ s. s)
        lift (from_hook (env.backend.post_submit s.trace t id))
        modify (λ s. record s { trace = hook t id ∷ s.trace }))
      else pure tt

  unfoldable pub do_submit : Ref → List Str → M Str
  unfolding call_submit run_hook ◌>>=◌
  do_submit t deps = do id ← call_submit t deps; run_hook t id; pure id

  -- The job of the ledger for an input that no rule makes and that is not on disk.
  abbrev external_edge : List DepEdge → Option Str → List DepEdge
  external_edge edges none = edges
  external_edge edges (some id) = add_edge edges id none

  unfoldable pub no_producer : List DepEdge → Str → List DepEdge
  unfolding stat_exists external_dep
  no_producer edges input =
      if stat_exists env input then edges else external_edge edges (external_dep env input)

  unfoldable pub edge_made : ℕ → (Ref → M Str) → List DepEdge → Str → Option Ref → M (List DepEdge)
  unfolding no_producer resolve stat_exists ◌>>=◌
  edge_made depth self edges input none = pure (no_producer edges input)
  edge_made depth self edges input (some c) = do
    sub ← resolve env depth depth c
    if sub.will_run || not (stat_exists env input)
        then (do id ← self c; pure (add_edge edges id (some c)))
        else pure edges

  unfoldable pub collect_edge : ℕ → (Ref → M Str) → List DepEdge → Str → M (List DepEdge)
  unfolding edge_made producer_for ◌>>=◌
  collect_edge depth self edges input = do
    made_by ← producer_for env depth input
    edge_made depth self edges input made_by

  unfoldable pub collect_dep_edges : ℕ → (Ref → M Str) → Ref → M (List DepEdge)
  unfolding collect_edge target_of for_each
  collect_dep_edges depth self t = for_each (collect_edge depth self) (target_of env t).inputs []

  unfoldable pub collect_deps : ℕ → (Ref → M Str) → Ref → M (List Str)
  unfolding collect_dep_edges collapse_full_array_deps ◌>>=◌
  collect_deps depth self t = do
    edges ← collect_dep_edges depth self t
    s ← gets (λ s. s)
    pure (collapse_full_array_deps arrays s.array_base edges)

  outputs_present : List Str → Bool
  unfolding stat_exists
  outputs_present [] = true
  outputs_present (o ∷ os) = stat_exists env o && outputs_present os

  -- One member of an array group.
  unfoldable pub stale_member : ℕ → (Ref → M Str) → ArrayGroup → Stale → Ref → M Stale
  unfolding collect_dep_edges resolve outputs_present target_of insert lookup ◌>>=◌
  stale_member depth self g acc m = do
    s ← gets (λ s. s)
    if flag m s.done then pure acc else do
      modify (λ s. record s { done = insert m true s.done })
      edges ← collect_dep_edges depth self m
      res ← resolve env depth depth m
      pure (
          if not (target_of env m).has_body
            || not res.will_run && outputs_present (target_of env m).outputs
          then acc
          else record {
            members = acc.members ++ (m ∷ []);
            indices = acc.indices ++ (index_in g m ∷ []);
            edges = insert m edges acc.edges;
          })

  -- One Submit for each member, for a backend without arrays.
  unfoldable pub submit_each : List Str → List (Ref × Str) → Ref → M (List (Ref × Str))
  unfolding call_submit insert ◌>>=◌
  submit_each deps ids m = do id ← call_submit m deps; pure (insert m id ids)

  abbrev ids_by : (Ref → Str) → List Ref → List (Ref × Str)
  ids_by f [] = []
  ids_by f (m ∷ ms) = (m, f m) ∷ ids_by f ms

  abbrev set_base : Pos → Str → List (Pos × Str) → List (Pos × Str)
  set_base g b bases = if b == [] then bases else insert g b bases

  -- Hand the stale members over, as one array where the backend can.
  unfoldable pub send_by :
      Option SubmitArray → Pos → ArrayGroup → Stale → List Str → List Str → M (List (Ref × Str))
  unfolding submit_each for_each insert ◌>>=◌
  send_by (some submit_all) gpos g stale deps aftercorr = do
    s ← gets (λ s. s)
    got ← lift (from_backend (submit_all s.trace stale.members stale.indices deps aftercorr))
    modify (λ s. record s {
      array_base = set_base gpos got.1 s.array_base;
      trace = array_submitted stale.members stale.indices deps aftercorr got.1 ∷ s.trace;
    })
    pure (ids_by got.0 stale.members)
  send_by none gpos g stale deps aftercorr =
      if aftercorr == []
      then for_each (submit_each deps) stale.members []
      else fail (not_array_capable g.name)

  unfoldable pub send_array : Pos → ArrayGroup → Stale → List Str → List Str → M (List (Ref × Str))
  unfolding send_by
  send_array = send_by env.backend.submit_array

  unfoldable pub record_member : List (Ref × Str) → Unit {0} → Ref → M (Unit {0})
  unfolding run_hook insert lookup ◌>>=◌
  record_member ids done m = do
    modify (λ s. record s { job_id = insert m (or_text (lookup m ids)) s.job_id })
    run_hook m (or_text (lookup m ids))

  unfoldable pub send_stale : Pos → ArrayGroup → Stale → M (Unit {0})
  unfolding array_dep_directives send_array record_member for_each ◌>>=◌
  send_stale gpos g stale = do
    s ← gets (λ s. s)
    directives ← lift (array_dep_directives arrays s.array_base gpos stale.edges stale.members)
    ids ← send_array gpos g stale directives.0 directives.1
    for_each (record_member ids) stale.members tt

  abbrev no_stale : Stale
  no_stale = record { members = []; indices = []; edges = [] }

  unfoldable pub submit_array_group : ℕ → (Ref → M Str) → Pos → M (Unit {0})
  unfolding stale_member send_stale for_each insert lookup ◌>>=◌
  submit_array_group depth self gpos = do
    s ← gets (λ s. s)
    if flag gpos s.array_done then pure tt else do
      modify (λ s. record s { array_done = insert gpos true s.array_done })
      let g = or_group (lookup gpos arrays.groups)
      stale ← for_each (stale_member depth self g) g.members no_stale
      if stale.members == [] then pure tt else send_stale gpos g stale

  -- A target outside the arrays, marked before its inputs are looked at.
  unfoldable pub submit_single : ℕ → (Ref → M Str) → Ref → M Str
  unfolding collect_deps do_submit target_of insert ◌>>=◌
  submit_single depth self t = do
    modify (λ s. record s { done = insert t true s.done })
    deps ← collect_deps depth self t
    if (target_of env t).has_body
        then (do
          id ← do_submit t deps
          modify (λ s. record s { job_id = insert t id s.job_id })
          pure id)
        else pure []

  unfoldable pub submit_array_member : ℕ → (Ref → M Str) → Ref → Pos → M Str
  unfolding submit_array_group lookup ◌>>=◌
  submit_array_member depth self t g = do
    submit_array_group depth self g
    s ← gets (λ s. s)
    pure (or_text (lookup t s.job_id))

  -- `submit` behind its test of `done`.
  unfoldable pub submit_new : ℕ → (Ref → M Str) → Ref → Option Pos → M Str
  unfolding submit_single submit_array_member
  submit_new depth self t none = submit_single depth self t
  submit_new depth self t (some g) = submit_array_member depth self t g

  unfoldable pub submit : ℕ → ℕ → Ref → M Str
  unfolding submit_new lookup ◌>>=◌
  submit depth zero t = fail out_of_fuel
  submit depth (suc fuel) t = do
    s ← gets (λ s. s)
    if flag t s.done
        then pure (or_text (lookup t s.job_id))
        else submit_new depth (submit depth fuel) t (lookup t arrays.array_of)
