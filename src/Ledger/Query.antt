-- ===== src/Ledger/Query.antt =====
-- ledger.go: Search, Dump, Jobs, Owners, CountJobs, and the names of the log files. strconv.Itoa and
-- Atoi, strings.TrimSpace and the liveness of a process are parameters.
mod Meant
pub mod Found
use cgpipe.Prelude.{
  ℕ, zero, suc, ◌-◌, List, [], ◌∷◌, ◌++◌, map, Bool, true, false, not, ◌&&◌, ◌||◌, Option, none,
  some, list_eq, nat_eq, if◌then◌else◌, ◌==◌, ltb, length, take, drop,
}
use cgpipe.Prelude.Assoc.{lookup, flag}
use cgpipe.Text.{Str, codes, has_suffix, contains_text, join}
use cgpipe.Ledger.{Job, Entry, State, text_gt}
use cgpipe.Ledger.Vacuum.{less_job}

pub record Filter : Type 0 where
  pub id : Str
  pub name : Str
  pub input : Str
  pub output : Str
  pub grep : Str

unfoldable count_jobs : State → ℕ
count_jobs st = length st.jobs

-- sort.Slice by lessJob
unfoldable insert_job : Job → List Job → List Job
unfolding less_job
insert_job j [] = j ∷ []
insert_job j (k ∷ ks) =
    let rest = insert_job j ks in if less_job k j then k ∷ rest else j ∷ (k ∷ ks)

unfoldable sort_jobs : List Job → List Job
unfolding insert_job
sort_jobs [] = []
sort_jobs (j ∷ js) = insert_job j (sort_jobs js)

unfoldable sorted_jobs : State → List Job
unfolding sort_jobs
sorted_jobs st = sort_jobs (map (λ e. e.1.value) st.jobs)

unfoldable jobs : State → List Job
unfolding sorted_jobs
jobs st = sorted_jobs st

unfoldable owners : State → List (Str × Str)
owners st = map (λ o. (o.0, o.1.value)) st.owner

unfoldable any_contains : List Str → Str → Bool
unfolding contains_text
any_contains [] sub = false
any_contains (s ∷ ss) sub = contains_text s sub || any_contains ss sub

unfoldable match_id : Job → Str → Bool
match_id j id = j.job_id == id || (not (j.array_id == []) && j.array_id == id)

-- The tests of the loop of Search; a field that is empty does not test.
unfoldable selects : Filter → Job → Bool
unfolding match_id any_contains contains_text
selects f j =
    if not (f.id == []) && not (match_id j f.id)
    then false
    else if not (f.name == []) && not (contains_text j.name f.name)
    then false
    else if not (f.input == []) && not (any_contains j.inputs f.input)
    then false
    else if not (f.output == []) && not (any_contains j.outputs f.output)
    then false
    else not (not (f.grep == []) && not (contains_text j.script f.grep))

unfoldable search_jobs : Filter → List Job → List Str
unfolding selects
search_jobs f [] = []
search_jobs f (j ∷ js) =
    let rest = search_jobs f js in if selects f j then j.job_id ∷ rest else rest

pub search : Filter → State → List Str
unfolding search_jobs sorted_jobs
search f st = search_jobs f (sorted_jobs st)

-- sanitize
unfoldable safe_byte : ℕ → ℕ
safe_byte c = if c == b'/' || (c == 92 || (c == 32 || (c == 9 || c == 10))) then b'_' else c

unfoldable sanitize : Str → Str
unfolding safe_byte
sanitize s = map safe_byte s

-- strings.Split for a text of one byte
abbrev onto_first : ℕ → List Str → List Str
onto_first c [] = (c ∷ []) ∷ []
onto_first c (p ∷ ps) = (c ∷ p) ∷ ps

unfoldable split_byte : Str → ℕ → List Str
split_byte [] sep = [] ∷ []
split_byte (c ∷ s) sep =
    let rest = split_byte s sep in if c == sep then [] ∷ rest else onto_first c rest

abbrev both_ints : Option ℕ → Option ℕ → Option ℕ → Str → Option (Str × ℕ)
both_ints (some pid) (some nanos) (some n) host = some (host, pid)
both_ints _ _ _ host = none

-- The host and the pid from the parts of a name, of which the last three are numbers.
abbrev tail_ints : (Str → Option ℕ) → List Str → Str → Option (Str × ℕ)
tail_ints atoi (p ∷ nanos ∷ n ∷ []) host = both_ints (atoi p) (atoi nanos) (atoi n) host
tail_ints atoi _ host = none

unfoldable name_parts : (Str → Option ℕ) → List Str → Option (Str × ℕ)
unfolding join
name_parts atoi parts =
    if ltb (length parts) 4
    then none
    else tail_ints atoi (drop (length parts - 3) parts)
        (join (take (length parts - 3) parts) (codes "-"))

unfoldable parse_log_name : (Str → Option ℕ) → Str → Option (Str × ℕ)
unfolding name_parts split_byte has_suffix
parse_log_name atoi name =
    if has_suffix name (codes ".jsonl")
    then name_parts atoi (split_byte (take (length name - 6) name) b'-')
    else none

abbrev runs_here : (ℕ → Bool) → Str → Option (Str × ℕ) → Bool
runs_here alive my_host none = false
runs_here alive my_host (some (host, pid)) = host == my_host && alive pid

-- logIsLiveLocal, where `alive` asks for the process
unfoldable log_is_live_local : (Str → Option ℕ) → (ℕ → Bool) → Str → Str → Bool
unfolding parse_log_name sanitize
log_is_live_local atoi alive name my_host =
    runs_here alive (sanitize my_host) (parse_log_name atoi name)

-- sort.Strings
unfoldable insert_text : Str → List Str → List Str
unfolding text_gt
insert_text s [] = s ∷ []
insert_text s (t ∷ ts) =
    let rest = insert_text s ts in if text_gt s t then t ∷ rest else s ∷ (t ∷ ts)

unfoldable pub sort_texts : List Str → List Str
unfolding insert_text
sort_texts [] = []
sort_texts (s ∷ ss) = insert_text s (sort_texts ss)

-- strings.TrimRight for a newline
abbrev keep_unless : Bool → ℕ → Str → Str
keep_unless true c s = []
keep_unless false c s = c ∷ s

unfoldable trim_newlines : Str → Str
trim_newlines [] = []
trim_newlines (c ∷ s) = let rest = trim_newlines s in keep_unless (c == 10 && rest == []) c rest

abbrev value_or_empty : Option Str → Str
value_or_empty (some s) = s
value_or_empty none = []

-- One line of a dump.
unfoldable line : List Str → Str
unfolding join
line fields = join fields (codes "\t") ++ codes "\n"

unfoldable key_value : Str → Str → Str → Str
unfolding line
key_value id key val = if val == [] then [] else line (id ∷ key ∷ val ∷ [])

unfoldable key_values : Str → Str → List Str → Str
unfolding key_value
key_values id key [] = []
key_values id key (v ∷ vs) = key_value id key v ++ key_values id key vs

unfoldable output_lines : Job → List Str → Str
unfolding key_value lookup
output_lines j [] = []
output_lines j (o ∷ os) =
    key_value j.job_id (if flag o j.temp then codes "TEMP" else codes "OUTPUT") o
    ++ output_lines j os

unfoldable source_lines : Str → List Str → Str
unfolding line
source_lines id [] = []
source_lines id (s ∷ ss) = line (id ∷ codes "SRC" ∷ s ∷ []) ++ source_lines id ss

unfoldable setting_lines : Job → List Str → Str
unfolding line lookup
setting_lines j [] = []
setting_lines j (k ∷ ks) =
    line (j.job_id ∷ codes "SETTING" ∷ k ∷ value_or_empty (lookup k j.settings) ∷ [])
    ++ setting_lines j ks

module _ (itoa : ℕ → Str) (trim_space : Str → Str) where
  unfoldable dump_job : Job → Str
  unfolding key_value key_values output_lines source_lines setting_lines sort_texts trim_newlines
      split_byte
  dump_job j =
      key_value j.job_id (codes "PIPELINE") j.pipeline
      ++ key_value j.job_id (codes "WORKINGDIR") j.working_dir
      ++ key_value j.job_id (codes "RUNID") j.run_id
      ++ key_value j.job_id (codes "NAME") j.name
      ++ key_value j.job_id (codes "USER") j.user
      ++ (if j.array_id == []
          then []
          else key_value j.job_id (codes "ARRAY") j.array_id
            ++ line (j.job_id ∷ codes "TASKINDEX" ∷ itoa j.task_index ∷ []))
      ++ (if j.submit_time == 0
          then []
          else line (j.job_id ∷ codes "SUBMIT" ∷ itoa j.submit_time ∷ []))
      ++ key_values j.job_id (codes "DEP") j.deps
      ++ output_lines j (sort_texts j.outputs)
      ++ key_values j.job_id (codes "INPUT") j.inputs
      ++ (if trim_space j.script == []
          then []
          else source_lines j.job_id (split_byte (trim_newlines j.script) 10))
      ++ setting_lines j (sort_texts (map (λ s. s.0) j.settings))

  unfoldable any_match : Job → List Str → Bool
  unfolding match_id
  any_match j [] = false
  any_match j (id ∷ ids) = match_id j id || any_match j ids

  unfoldable dump_jobs : List Str → List Job → Str
  unfolding dump_job any_match
  dump_jobs only [] = []
  dump_jobs only (j ∷ js) =
      let rest = dump_jobs only js in
      if only == [] || any_match j only then dump_job j ++ rest else rest

  unfoldable dump : List Str → State → Str
  unfolding dump_jobs sorted_jobs
  dump only st = dump_jobs only (sorted_jobs st)
