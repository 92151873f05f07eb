-- ===== src/Ledger/Vacuum.antt =====
-- ledger.go: Vacuum, the writes, the syncs and the rename having succeeded. A file that is removed
-- is no longer read.
pub mod Owners
use cgpipe.Prelude.{
  ℕ, List, [], ◌∷◌, ◌++◌, map, Bool, true, false, not, ◌&&◌, ◌||◌, Option, none, some, list_eq,
  nat_eq, if◌then◌else◌, ◌==◌, ltb, contains,
}
use cgpipe.Prelude.Assoc.{lookup}
use cgpipe.Text.{Str}
use cgpipe.Ledger.{Job, LogRecord, Entry, State, text_gt, load}

-- lessJob
unfoldable pub less_job : Job → Job → Bool
unfolding text_gt
less_job a b =
    if not (a.submit_time == b.submit_time)
    then ltb a.submit_time b.submit_time
    else text_gt b.job_id a.job_id

-- A ledger directory: the snapshot's lines, and each process's log.
pub record Dir : Type 0 where
  pub snapshot : List (Option LogRecord)
  pub logs : List (Str × List (Option LogRecord))

-- The lines in the order in which `load` reads them.
abbrev pub files_of : Dir → List (List (Option LogRecord))
files_of d = d.snapshot ∷ map (λ l. l.1) d.logs

-- live: the job ids that own some path
unfoldable pub live_ids : State → List Str
live_ids st = map (λ o. o.1.value) st.owner

filter_live : List Str → List (Str × Entry Job) → List Str
filter_live live [] = []
filter_live live ((id, e) ∷ jobs) =
    if contains live id then id ∷ filter_live live jobs else filter_live live jobs

-- sort.Slice
insert_id : (Str → Str → Bool) → Str → List Str → List Str
insert_id less id [] = id ∷ []
insert_id less id (j ∷ ids) =
    let rest = insert_id less id ids in if less j id then j ∷ rest else id ∷ (j ∷ ids)

sort_ids : (Str → Str → Bool) → List Str → List Str
unfolding insert_id
sort_ids less [] = []
sort_ids less (id ∷ ids) = insert_id less id (sort_ids less ids)

less_entry : Option (Entry Job) → Option (Entry Job) → Bool
unfolding less_job
less_entry (some a) (some b) = less_job a.value b.value
less_entry _ _ = false

less_id : State → Str → Str → Bool
unfolding less_entry lookup
less_id st i j = less_entry (lookup i st.jobs) (lookup j st.jobs)

abbrev pub entry_line : Option (Entry Job) → Option LogRecord
entry_line none = none
entry_line (some e) = some (record { ord = e.ord; job = e.value })

-- The lines of the snapshot.
unfoldable pub snapshot_of : State → List (Option LogRecord)
unfolding filter_live live_ids sort_ids less_id lookup
snapshot_of st =
    map (λ id. entry_line (lookup id st.jobs))
      (sort_ids (less_id st) (filter_live (live_ids st) st.jobs))

-- The logs that stay: those of a live process of this host, but for this process's own.
keep_logs :
    (Str → Bool) → Str → List (Str × List (Option LogRecord)) → List (Str × List (Option LogRecord))
keep_logs live_local own [] = []
keep_logs live_local own ((name, lines) ∷ logs) =
    if live_local name && not (name == own)
    then (name, lines) ∷ keep_logs live_local own logs
    else keep_logs live_local own logs

-- `live_local` is logIsLiveLocal for this host, and `own` the name of this process's log.
unfoldable pub vacuum : (Str → Bool) → Str → Dir → Dir
unfolding snapshot_of keep_logs
vacuum live_local own d = record {
  snapshot = snapshot_of (load (files_of d));
  logs = keep_logs live_local own d.logs;
}
