-- ===== src/Eval/Scope/Tests.antt =====
-- The theorems on scopes at a scope of two frames.
use cgpipe.Prelude.{ℕ, List, [], ◌∷◌, some, list_eq, nat_eq, ◌≡◌, if◌then◌else◌, ◌==◌}
use cgpipe.Text.{Str, codes}
use cgpipe.Eval.Scope.{get, assign, clone}
use cgpipe.Eval.Scope.Laws.{get-assign, get-clone}

abbrev two_frames : List (List (Str × ℕ))
two_frames = ((codes "x", 1) ∷ []) ∷ ((codes "x", 2) ∷ (codes "y", 3) ∷ []) ∷ []

get-assign_example :
    get (codes "x") (assign (codes "job.mem") 7 two_frames).0
    ≡ (if codes "job.mem" == codes "x" then some 7 else get (codes "x") two_frames)
get-assign_example = get-assign (codes "job.mem") (codes "x") 7 two_frames (λ e. cc e)

get-clone_example : get (codes "y") (clone two_frames) ≡ get (codes "y") two_frames
get-clone_example = get-clone (codes "y") two_frames
