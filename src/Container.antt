-- ===== src/Container.antt =====
-- internal/container/container.go: the wrapping of a job's body for a container. filepath.Abs and
-- filepath.Dir are parameters, and so are the working directory that Abs reads, strings.ToLower and
-- Go's conversion of a rune to a text.
mod Mounts
mod Tests
use mathlib.Core.List.{foldl}
use cgpipe.Prelude.{
  ℕ, zero, suc, ◌+◌, List, [], ◌∷◌, ◌++◌, map, Bool, true, false, not, ◌&&◌, ◌||◌, Option, none,
  some, list_eq, nat_eq, if◌then◌else◌, ◌==◌, contains,
}
use cgpipe.Exec.{Result, ok, err}
use cgpipe.Text.{Str, codes, has_prefix, has_suffix, contains_text}

record Spec : Type 0 where
  engine : Str
  image : Str
  working_dir : Str
  body_dir : Str
  shell : Str
  gpu : Str
  user_map : Bool
  binds : List Str
  inputs : List Str
  outputs : List Str
  env : List Str
  opts : List Str

-- filepath.Abs, filepath.Dir, strings.ToLower and string(rune)
record Library : Type 0 where
  abs : Str → Option Str
  dir : Str → Str
  to_lower : Str → Str
  rune_text : ℕ → Str

-- What the writes of a loop over a list add up to.
unfoldable each : (Str → Str) → List Str → Str
each line [] = []
each line (x ∷ xs) = line x ++ each line xs

abbrev newline : Str
newline = codes "\n"

-- The start of a continued line of the command.
abbrev next_line : Str
next_line = codes " \\\n    "

abbrev default_to : Str → Str → Str
default_to given default = if given == [] then default else given

unfoldable normalize_singularity_image : Str → Str
unfolding contains_text has_suffix has_prefix
normalize_singularity_image image =
    if contains_text image (codes "://")
      || (has_suffix image (codes ".sif")
          || (has_prefix image (codes "/") || has_prefix image (codes "./")))
    then image
    else codes "docker://" ++ image

abbrev docker_gpu : Str → Str
docker_gpu gpu =
    if gpu == []
    then []
    else next_line
      ++ (codes "--gpus " ++ (if gpu == codes "1" || gpu == codes "true" then codes "all" else gpu))

abbrev run_line : Str → Str
run_line shell = next_line ++ (shell ++ codes " \"$__cgpipe_body\"")

unfoldable render_docker : Spec → List Str → Str → Str → Str
unfolding each
render_docker s mounts wd shell =
    codes "docker run --rm"
    ++ each (λ m. next_line ++ (codes "-v " ++ (m ++ (codes ":" ++ m)))) mounts
    ++ next_line
    ++ codes "-w "
    ++ wd
    ++ (if s.user_map then next_line ++ codes "-u $(id -u):$(id -g)" else [])
    ++ docker_gpu s.gpu
    ++ each (λ e. next_line ++ (codes "-e " ++ e)) s.env
    ++ each (λ o. next_line ++ o) s.opts
    ++ next_line
    ++ s.image
    ++ run_line shell

unfoldable render_singularity : Spec → List Str → Str → Str → Str
unfolding each normalize_singularity_image
render_singularity s mounts wd shell =
    codes "singularity exec"
    ++ each (λ m. next_line ++ (codes "-B " ++ (m ++ (codes ":" ++ m)))) mounts
    ++ next_line
    ++ codes "--pwd "
    ++ wd
    ++ (if s.gpu == [] then [] else next_line ++ codes "--nv")
    ++ each (λ e. next_line ++ (codes "--env " ++ (e ++ (codes "=\"$" ++ (e ++ codes "\""))))) s.env
    ++ each (λ o. next_line ++ o) s.opts
    ++ next_line
    ++ normalize_singularity_image s.image
    ++ run_line shell

-- `add` of computeMounts: the directories seen so far are those listed.
unfoldable add_mount : List Str → Str → List Str
add_mount out d = if d == [] || contains out d then out else out ++ (d ∷ [])

unfoldable add_all : List Str → List Str → List Str
unfolding add_mount
add_all out [] = out
add_all out (d ∷ ds) = add_all (add_mount out d) ds

module _ (lib : Library) where
  abbrev abs_or : Option Str → Str → Str
  abs_or (some a) p = a
  abs_or none p = p

  abbrev abs_dir : Str → Str
  abs_dir p = abs_or (lib.abs p) p

  -- The directories that are asked for, in order.
  unfoldable mount_candidates : Spec → Str → Str → List Str
  mount_candidates s body_dir wd =
      body_dir ∷ abs_dir wd ∷ (s.binds ++ map (λ p. abs_dir (lib.dir p)) (s.inputs ++ s.outputs))

  unfoldable compute_mounts : Spec → Str → Str → List Str
  unfolding mount_candidates add_all
  compute_mounts s body_dir wd = add_all [] (mount_candidates s body_dir wd)

  -- The loop of pickMarker from a marker that is to be tried; `fuel` bounds the tries.
  marker_from : ℕ → Str → ℕ → Str → Option Str
  unfolding contains_text
  marker_from zero body i marker = none
  marker_from (suc fuel) body i marker =
      let rest =
        marker_from fuel body (suc i)
          (codes "__CGP_BODY_" ++ (lib.rune_text (b'A' + i) ++ codes "__")) in
      if contains_text body marker then rest else some marker

  unfoldable pick_marker : ℕ → Str → Option Str
  unfolding marker_from
  pick_marker fuel body = marker_from fuel body 0 (codes "__CGP_BODY__")

  abbrev heredoc : Str → Str → Str → Str
  heredoc body_dir marker body =
      codes "__cgpipe_body=$(mktemp \""
      ++ body_dir
      ++ codes "/cgpipe-body.XXXXXX\")\n"
      ++ codes "trap 'rm -f \"$__cgpipe_body\"' EXIT\n"
      ++ codes "cat > \"$__cgpipe_body\" <<'"
      ++ marker
      ++ codes "'\n"
      ++ body
      ++ (if has_suffix body newline then [] else newline)
      ++ marker
      ++ codes "\n\n"

  abbrev is_singularity : Str → Bool
  is_singularity engine =
      lib.to_lower engine == codes "singularity" || lib.to_lower engine == codes "apptainer"

  unfoldable wrap_with : Spec → Str → Str → Str
  unfolding render_docker render_singularity compute_mounts has_suffix
  wrap_with s body marker =
      let body_dir = default_to s.body_dir (codes "/tmp") in
      let wd = abs_dir s.working_dir in
      let shell = default_to s.shell (codes "sh") in
      let mounts = compute_mounts s body_dir wd in
      heredoc body_dir marker body
      ++ (if is_singularity s.engine
          then render_singularity s mounts wd shell
          else render_docker s mounts wd shell)
      ++ newline

  -- Wrap; `none` where the bound on the tries for a marker is met.
  unfoldable wrap : ℕ → Str → Spec → Option Str
  unfolding wrap_with pick_marker
  wrap fuel body s =
      if body == [] || (s.engine == [] || s.image == [])
      then some body
      else (elim (pick_marker fuel body) [
        | none ↦ none
        | some marker ↦ some (wrap_with s body marker)
      ])
