-- ===== src/Eval/Body/Lines.antt =====
-- The shell lines of a body and of its tree.
use cgpipe.Prelude.{
  ℕ, ◌+◌, ◌-◌, ◌<◌, ◌≤◌, List, [], ◌∷◌, ◌++◌, Bool, true, false, not, nat_eq, if◌then◌else◌, leb,
  length, ◌≡◌, refl, ap, sym, ◌∙◌, append_assoc, arith,
}
use cgpipe.Text.{Str}
use cgpipe.Eval.Body.{
  is_ctrl_line, ctrl_content, brackets, gather, Node, Nodes, Branches, shell_line, statement,
  for_in, while_loop, branching, no_nodes, node_then, no_branches, branch_then, next_line_of,
}

-- The lines that are not cgpipe's own.
unfoldable pub shell_in : List Str → List Str
shell_in [] = []
shell_in (l ∷ ls) = if is_ctrl_line l then shell_in ls else l ∷ shell_in ls

unfoldable mutual
  pub shell_of_node : Node → List Str
  shell_of_node (shell_line l) = l ∷ []
  shell_of_node (statement s) = []
  shell_of_node (for_in v e body) = shell_of body
  shell_of_node (while_loop e body) = shell_of body
  shell_of_node (branching bs els) = shell_of_branches bs ++ shell_of els

  pub shell_of : Nodes → List Str
  shell_of no_nodes = []
  shell_of (node_then n ns) = shell_of_node n ++ shell_of ns

  pub shell_of_branches : Branches → List Str
  shell_of_branches no_branches = []
  shell_of_branches (branch_then e body bs) = shell_of body ++ shell_of_branches bs

-- `A` and the shell lines to come are `T`, and fewer than `n` lines are to come.
abbrev pub Left : List Str → List Str → ℕ → List Str → Type 0
Left A T n s = (A ++ shell_in s ≡ T) × (length s < n)

-- The next line is one of cgpipe's own.
abbrev pub AtControl : List Str → Type 0
AtControl [] = ⊥
AtControl (l ∷ ls) = is_ctrl_line l ≡ true

-- Where a block has stopped.
abbrev pub Stopped : Str → List Str → Type 0
Stopped [] s = s ≡ []
Stopped (c ∷ cs) s = AtControl s

shell_in-control :
    (l : Str) (ls : List Str) → is_ctrl_line l ≡ true → shell_in (l ∷ ls) ≡ shell_in ls
unfolding shell_in
shell_in-control l ls e = rw e refl

shell_in-shell :
    (l : Str) (ls : List Str) → is_ctrl_line l ≡ false → shell_in (l ∷ ls) ≡ l ∷ shell_in ls
unfolding shell_in
shell_in-shell l ls e = rw e refl

pub consumed_control :
    (A T : List Str) (n : ℕ) (s : List Str)
    → Left A T n s
    → AtControl s
    → Left A T (n - 1) (next_line_of s)
consumed_control A T n [] h c = absurd c
consumed_control A T n (l ∷ ls) h c =
    (ap (λ x. A ++ x) (sym (shell_in-control l ls c)) ∙ h.0, omega (arith, h.1))

pub consumed_shell :
    (A T : List Str) (n : ℕ) (l : Str) (ls : List Str)
    → Left A T n (l ∷ ls)
    → is_ctrl_line l ≡ false
    → Left (A ++ (l ∷ [])) T (n - 1) ls
consumed_shell A T n l ls h c = (
  append_assoc A (l ∷ []) (shell_in ls) ∙ (ap (λ x. A ++ x) (sym (shell_in-shell l ls c)) ∙ h.0),
  omega (arith, h.1),
)

-- What a statement leaves has the same shell lines.
abbrev Skips : List Str → List Str → Type 0
Skips ls rest = (shell_in rest ≡ shell_in ls) × (length rest ≤ length ls)

abbrev SkipsTo : List Str → List Str × List Str → Type 0
SkipsTo ls r = Skips ls r.1

after_control :
    (l : Str) (ls more x y : List Str) (b c : Bool)
    → b ≡ true
    → Skips ls more
    → SkipsTo ls (if not b then ([], l ∷ ls) else if c then (x, ls) else (y, more))
after_control l ls more x y true true e h = (refl, omega arith)
after_control l ls more x y true false e h = h
after_control l ls more x y false c e h = cc e

after_line :
    (l : Str) (ls more x y : List Str) (b c : Bool)
    → is_ctrl_line l ≡ b
    → Skips ls more
    → SkipsTo (l ∷ ls) (if not b then ([], l ∷ ls) else if c then (x, ls) else (y, more))
after_line l ls more x y true true e h = (sym (shell_in-control l ls e), omega arith)
after_line l ls more x y true false e h = (h.0 ∙ sym (shell_in-control l ls e), omega (arith, h.1))
after_line l ls more x y false c e h = (refl, omega arith)

gather-Skips : (depth : ℕ) (ls : List Str) → SkipsTo ls (gather depth ls)
unfolding gather
gather-Skips depth [] = (refl, omega arith)
gather-Skips depth (l ∷ ls) =
    let (o, c) = brackets false (ctrl_content l) in
    let more = gather (depth + o - c) ls in
    after_line l ls more.1 (ctrl_content l ∷ []) (ctrl_content l ∷ more.0) (is_ctrl_line l)
      (leb (depth + o) c) refl (gather-Skips (depth + o - c) ls)

gather-control :
    (depth : ℕ) (l : Str) (ls : List Str)
    → is_ctrl_line l ≡ true
    → SkipsTo ls (gather depth (l ∷ ls))
unfolding gather
gather-control depth l ls e =
    let (o, c) = brackets false (ctrl_content l) in
    let more = gather (depth + o - c) ls in
    after_control l ls more.1 (ctrl_content l ∷ []) (ctrl_content l ∷ more.0) (is_ctrl_line l)
      (leb (depth + o) c) e (gather-Skips (depth + o - c) ls)

pub gathered :
    (A T : List Str) (n : ℕ) (s : List Str)
    → Left A T n s
    → AtControl s
    → Left A T (n - 1) (gather 0 s).1
gathered A T n [] h c = absurd c
gathered A T n (l ∷ ls) h c =
    let k = gather-control 0 l ls c in
    (ap (λ x. A ++ x) (k.0 ∙ sym (shell_in-control l ls c)) ∙ h.0, omega (arith, h.1, k.1))
