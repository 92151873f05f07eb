-- ===== src/Ledger.antt =====
-- internal/ledger/ledger.go: the records, their order, and the view that readers fold them into.
-- A line of a log is a record, or `none` where it is blank or cannot be decoded.
pub mod Order
pub mod Fold
pub mod Vacuum
pub mod Query
mod Tests
use mathlib.Core.List.{foldl}
use cgpipe.Prelude.{
  ℕ, suc, ◌+◌, List, [], ◌∷◌, ◌++◌, Bool, true, false, not, ◌&&◌, ◌||◌, Option, none, some, list_eq,
  nat_eq, Eq, if◌then◌else◌, ◌==◌, ltb, contains,
}
use cgpipe.Prelude.Assoc.{lookup, insert, flag}
use cgpipe.Text.{Str, contains_text}

-- Job; times are Unix times from 1970 on
pub record Job : Type 0 where
  pub job_id : Str
  pub run_id : Str
  pub name : Str
  pub pipeline : Str
  pub working_dir : Str
  pub user : Str
  pub submit_time : ℕ
  pub outputs : List Str
  pub temp : List (Str × Bool)
  pub inputs : List Str
  pub deps : List Str
  pub script : Str
  pub settings : List (Str × Str)
  pub array_id : Str
  pub task_index : ℕ

-- ordKey
pub record OrdKey : Type 0 where
  pub ts : ℕ
  pub host : Str
  pub pid : ℕ
  pub seq : ℕ

-- record
pub record LogRecord : Type 0 where
  pub ord : OrdKey
  pub job : Job

-- a > b on Go strings
unfoldable pub text_gt : Str → Str → Bool
text_gt [] b = false
text_gt (x ∷ a) [] = true
text_gt (x ∷ a) (y ∷ b) = if x == y then text_gt a b else ltb y x

unfoldable pub after : OrdKey → OrdKey → Bool
unfolding text_gt
after a b =
    if not (a.ts == b.ts)
    then ltb b.ts a.ts
    else if not (a.host == b.host)
    then text_gt a.host b.host
    else if not (a.pid == b.pid)
    then ltb b.pid a.pid
    else ltb b.seq a.seq

-- jobEntry and ownerEntry, the latter over a job id
pub record Entry (A : Type 0) : Type 0 where
  pub value : A
  pub ord : OrdKey

pub record State : Type 0 where
  pub jobs : List (Str × Entry Job)
  pub owner : List (Str × Entry Str)

abbrev pub empty_state : State
empty_state = record { jobs = []; owner = [] }

-- !ok || o.after(e.ord)
abbrev pub supersedes : {A : Type 0} → OrdKey → Option (Entry A) → Bool
supersedes o none = true
supersedes o (some e) = after o e.ord

unfoldable pub claim : {A : Type 0} → Str → Entry A → List (Str × Entry A) → List (Str × Entry A)
unfolding lookup insert after
claim k e m = if supersedes e.ord (lookup k m) then insert k e m else m

unfoldable pub claim_all : List Str → Entry Str → List (Str × Entry Str) → List (Str × Entry Str)
unfolding claim
claim_all [] e m = m
claim_all (p ∷ ps) e m = claim_all ps e (claim p e m)

-- state.apply
unfoldable pub apply : State → LogRecord → State
unfolding claim claim_all
apply st r = record {
  jobs = claim r.job.job_id (record { value = r.job; ord = r.ord }) st.jobs;
  owner = claim_all r.job.outputs (record { value = r.job.job_id; ord = r.ord }) st.owner;
}

unfoldable pub fold_records : State → List LogRecord → State
unfolding apply
fold_records = foldl apply

-- foldFile
unfoldable pub fold_file : State → List (Option LogRecord) → State
unfolding apply
fold_file st [] = st
fold_file st (none ∷ lines) = fold_file st lines
fold_file st (some r ∷ lines) = fold_file (apply st r) lines

-- The files of load, in the order in which it reads them.
unfoldable pub load : List (List (Option LogRecord)) → State
unfolding fold_file
load = foldl fold_file empty_state

abbrev pub named : Option (Entry Str) → Option Str
named none = none
named (some e) = some e.value

-- Ledger.OwnerOf
unfoldable pub owner_of : State → Str → Option Str
unfolding lookup
owner_of st path = named (lookup path st.owner)

-- Ledger: the view, this process's log (its lines, the last one first), and the counter.
pub record Ledger : Type 0 where
  pub st : State
  pub log : List LogRecord
  pub seq : ℕ
  pub read_only : Bool
  pub host : Str
  pub pid : ℕ

-- Ledger.Record at the time `now`, the write and the sync having succeeded; `none` for the error
-- of a read-only ledger.
unfoldable pub record_job : ℕ → Job → Ledger → Option Ledger
unfolding apply
record_job now j l =
    let r : LogRecord = record {
      ord = record { ts = now; host = l.host; pid = l.pid; seq = suc l.seq };
      job = j;
    } in
    if l.read_only
    then none
    else some (record l { st = apply l.st r; log = r ∷ l.log; seq = suc l.seq })
