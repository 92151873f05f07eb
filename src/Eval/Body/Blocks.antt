-- ===== src/Eval/Body/Blocks.antt =====
-- The blocks of a body: they are read in as many calls as the body has lines, and keep its shell lines.
use cgpipe.Prelude.{
  ℕ, zero, suc, ◌-◌, ◌≤◌, List, [], ◌∷◌, ◌++◌, true, false, Option, none, some, nat_eq, list_eq,
  eq_iff, ◌==◌, length, drop, ◌≡◌, ◌≢◌, refl, ap, sym, subst, ◌∙◌, append_assoc, append-nil, arith,
}
use cgpipe.Text.{Str, codes, has_prefix, join, trim_space}
use cgpipe.Exec.{Result, ok, err, fail}
use cgpipe.Exec.Triple.{
  Triple, Post, triple_pure, triple_fail, triple_gets, triple_pre, triple_never, triple_if,
  triple_post, triple_bind, triple_modify,
}
use cgpipe.Syntax.Ast.{Expr}
use cgpipe.Syntax.Cursor.{Failure, out_of_fuel}
use cgpipe.Syntax.Parser.{parse_text}
use cgpipe.Syntax.Parser.Total.{parse_text_lem}
use cgpipe.Eval.Body.{
  is_ctrl_line, ctrl_content, gather, Node, Nodes, shell_line, statement, branching, no_nodes,
  node_then, no_branches, branch_then, BodyError, out_of_turns, unclosed_for, unclosed_if,
  unclosed_else, unexpected_closer, in_expression, next_line_of, consume, parsed_header,
  without_brace, parse_expr_from_header, ForHeader, over, while, loop_node, cut_at_in, header_of,
  parse_for_header, Block, node_onto, parse_branches, parse_control, block_at, parse_block_nodes,
  parse_whole_body, parse_body_nodes,
}
use cgpipe.Eval.Body.Lines.{
  shell_in, shell_of_node, shell_of, shell_of_branches, Left, AtControl, Stopped, consumed_control,
  consumed_shell, gathered,
}

-- Not an error of a bound that was too low.
abbrev Never : BodyError → List Str → Type 0
Never e s = (e ≢ out_of_turns) × (e ≢ in_expression out_of_fuel)

abbrev Read : List Str → List Str → ℕ → Nodes × Str → List Str → Type 0
Read A T n r s = Left (A ++ shell_of r.0) T n s × Stopped r.1 s

-- A parser of blocks for fewer than `n` lines.
abbrev Blocks : ℕ → Block → Type 0
Blocks n block = (A T : List Str) → Triple (Left A T n) block (Read A T n) Never

refuse :
    {A : Type 0} {P : List Str → Type 0} {Q : A → List Str → Type 0} (e : BodyError)
    → (e ≢ out_of_turns) × (e ≢ in_expression out_of_fuel)
    → Triple P (fail e) Q Never
refuse e h = triple_pre (λ s _. h) (triple_fail e)

parsed_header-keeps :
    {P : List Str → Type 0} (r : Result Failure Expr)
    → r ≢ err out_of_fuel
    → Triple P (parsed_header r) (λ _. P) Never
parsed_header-keeps (ok e) h = triple_pure e
parsed_header-keeps (err x) h =
    refuse (in_expression x) (λ q. cc q, λ q. h (ap (λ b. err (in_or b)) q))
  where
    in_or : BodyError → Failure
    in_or (in_expression f) = f
    in_or _ = out_of_fuel

parse_expr_from_header-keeps :
    {P : List Str → Type 0} (s : Str) → Triple P (parse_expr_from_header s) (λ _. P) Never
unfolding parse_expr_from_header
parse_expr_from_header-keeps s =
    parsed_header-keeps (parse_text (without_brace s)) (parse_text_lem (without_brace s))

header_of-keeps :
    {P : List Str → Type 0} (rest : Str) (o : Option (Str × Str))
    → Triple P (header_of rest o) (λ _. P) Never
unfolding header_of
header_of-keeps rest none =
    triple_bind (parsed_header-keeps (parse_text rest) (parse_text_lem rest))
      λ e. triple_pure (while e)
header_of-keeps rest (some (name, iter)) =
    triple_bind
      (parsed_header-keeps (parse_text (trim_space iter)) (parse_text_lem (trim_space iter)))
      λ e. triple_pure (over (trim_space name) e)

parse_for_header-keeps :
    {P : List Str → Type 0} (s : Str) → Triple P (parse_for_header s) (λ _. P) Never
unfolding parse_for_header
parse_for_header-keeps s =
    let rest = without_brace (drop 4 s) in header_of-keeps rest (cut_at_in rest)

Left-more :
    (A A' T : List Str) (n n' : ℕ) (s : List Str) → A ≡ A' → n ≤ n' → Left A T n s → Left A' T n' s
Left-more A A' T n n' s e le h = (ap (λ x. x ++ shell_in s) (sym e) ∙ h.0, omega (arith, h.1, le))

consume-control :
    (A T : List Str) (n : ℕ)
    → Triple (λ s. Left A T n s × AtControl s) consume (λ _. Left A T (n - 1)) Never
consume-control A T n =
    triple_modify (Left A T (n - 1)) next_line_of λ s h. consumed_control A T n s h.0 h.1

node_onto-Reads :
    (A T : List Str) (n : ℕ) (x : Node) (block : Block)
    → Blocks n block
    → Triple (Left (A ++ shell_of_node x) T n) (node_onto x block) (Read A T n) Never
unfolding shell_of
node_onto-Reads A T n x block h = triple_bind (h (A ++ shell_of_node x) T) λ r.
    triple_pre
      (λ s k. (
        Left-more _ _ T n n s (append_assoc A (shell_of_node x) (shell_of r.0)) (omega arith) k.0,
        k.1,
      ))
      (triple_pure (node_then x r.0, r.1))

-- A text that a stop is known to be, or to begin with, is not empty: the block has stopped at a line
-- of cgpipe's own.
stop-control : (stop : Str) (s : List Str) → stop ≢ [] → Stopped stop s → AtControl s
stop-control [] s ne h = absurd (ne refl)
stop-control (c ∷ cs) s ne h = h

stop-eq : (stop : Str) (c : ℕ) (cs : Str) → (stop == c ∷ cs) ≡ true → stop ≢ []
stop-eq stop c cs e q = cc ((eq_iff stop (c ∷ cs)).0 e, q)

stop-prefix :
    (stop : Str) (p : Str) → has_prefix [] p ≡ false → has_prefix stop p ≡ true → stop ≢ []
stop-prefix stop p none_empty e q = cc (sym (ap (λ x. has_prefix x p) q) ∙ e, none_empty)

consume_stop :
    (A T : List Str) (k : ℕ) (stop : Str)
    → stop ≢ []
    → Triple (λ s. Left A T k s × Stopped stop s) consume (λ _. Left A T (k - 1)) Never
consume_stop A T k stop ne =
    triple_pre (λ s h. (h.0, stop-control stop s ne h.1)) (consume-control A T k)

loop_node-shell : (h : ForHeader) (body : Nodes) → shell_of body ≡ shell_of_node (loop_node h body)
unfolding shell_of_node
loop_node-shell (over v e) body = refl
loop_node-shell (while e) body = refl

module _ (A B : List Str) where
  last_branch : A ++ B ≡ A ++ ((B ++ []) ++ [])
  last_branch = ap (λ x. A ++ x) (sym (append-nil (B ++ []) ∙ append-nil B))

  else_branch : (E : List Str) → (A ++ B) ++ E ≡ A ++ ((B ++ []) ++ E)
  else_branch E = append_assoc A B E ∙ ap (λ x. A ++ (x ++ E)) (sym (append-nil B))

  more_branches : (R E : List Str) → (A ++ B) ++ (R ++ E) ≡ A ++ ((B ++ R) ++ E)
  more_branches R E = append_assoc A B (R ++ E) ∙ ap (λ x. A ++ x) (sym (append_assoc B R E))

Stopped-at :
    (c : Str) → has_prefix c (codes "}") ≡ true → (s : List Str) → AtControl s → Stopped c s
unfolding has_prefix
Stopped-at [] e s h = absurd (stop-prefix [] (codes "}") refl e refl)
Stopped-at (c ∷ cs) e s h = h

module _ (m : ℕ) (block : Block) (ih : (k : ℕ) → k ≤ m → Blocks k block) where
  parse_branches-Reads :
      (fuel : ℕ) (cond : Expr) (A T : List Str) (k : ℕ)
      → k ≤ fuel
      → k ≤ m
      → Triple
          (Left A T k)
          (parse_branches block fuel cond)
          (λ r. Left (A ++ (shell_of_branches r.0 ++ shell_of r.1)) T k)
          Never
  unfolding parse_branches shell_of_branches shell_of has_prefix
  parse_branches-Reads zero cond A T zero le ln = triple_never λ s h. omega (arith, h.1)
  parse_branches-Reads zero cond A T (suc k) le ln = absurd (omega (arith, le))
  parse_branches-Reads (suc fuel) cond A T k le ln = triple_bind (ih k ln A T) λ r.
      let B = shell_of r.0 in
      triple_if (r.1 == codes "}")
        (λ e. triple_bind (consume_stop (A ++ B) T k r.1 (stop-eq r.1 _ _ e)) λ _.
          triple_pre (λ s h. Left-more _ _ T (k - 1) k s (last_branch A B) (omega arith) h)
            (triple_pure (branch_then cond r.0 no_branches, no_nodes)))
        (λ _.
          triple_if (has_prefix r.1 (codes "} elif "))
            (λ e. triple_bind (parse_expr_from_header-keeps (drop 7 r.1)) λ c.
              triple_bind (consume_stop (A ++ B) T k r.1 (stop-prefix r.1 (codes "} elif ") refl e))
                λ _.
                  triple_bind
                    (parse_branches-Reads fuel c (A ++ B) T (k - 1) (omega (arith, le))
                      (omega (arith, ln)))
                    λ rest.
                      triple_pre
                        (λ s h.
                          Left-more _ _ T (k - 1) k s
                            (more_branches A B (shell_of_branches rest.0) (shell_of rest.1))
                            (omega arith) h)
                        (triple_pure (branch_then cond r.0 rest.0, rest.1)))
            (λ _.
              triple_if (has_prefix r.1 (codes "} else"))
                (λ e.
                  triple_bind
                    (consume_stop (A ++ B) T k r.1 (stop-prefix r.1 (codes "} else") refl e))
                    λ _. triple_bind (ih (k - 1) (omega (arith, ln)) (A ++ B) T) λ r'.
                      triple_if (r'.1 == codes "}")
                        (λ e'.
                          triple_bind
                            (consume_stop ((A ++ B) ++ shell_of r'.0) T (k - 1) r'.1
                              (stop-eq r'.1 _ _ e'))
                            λ _.
                              triple_pre
                                (λ s h.
                                  Left-more _ _ T (k - 1 - 1) k s (else_branch A B (shell_of r'.0))
                                    (omega arith) h)
                                (triple_pure (branch_then cond r.0 no_branches, r'.0)))
                        (λ _. refuse unclosed_else (λ q. cc q, λ q. cc q)))
                (λ _. refuse unclosed_if (λ q. cc q, λ q. cc q))))

  node_last :
      (A B T : List Str) (j k : ℕ) (x : Node)
      → B ≡ shell_of_node x
      → j ≤ m
      → j ≤ k
      → Triple (Left (A ++ B) T j) (node_onto x block) (Read A T k) Never
  node_last A B T j k x e lm lk =
      triple_post (λ r s h. (Left-more _ _ T j k s refl lk h.0, h.1)) (λ e' s h. h)
        (triple_pre (λ s h. Left-more _ _ T j j s (ap (λ y. A ++ y) e) (omega arith) h)
          (node_onto-Reads A T j x block (ih j lm)))

  parse_control-Reads :
      (fuel : ℕ) (ctrl : Str) (A T : List Str) (k : ℕ)
      → k - 1 ≤ fuel
      → k - 1 ≤ m
      → Triple (λ s. Left A T k s × AtControl s) (parse_control block fuel ctrl) (Read A T k) Never
  unfolding parse_control shell_of_node shell_of
  parse_control-Reads fuel ctrl A T k le lm =
      triple_if (has_prefix ctrl (codes "}"))
        (λ e.
          triple_pre
            (λ s h. (
              Left-more _ _ T k k s (sym (append-nil A)) (omega arith) h.0,
              Stopped-at ctrl e s h.1,
            ))
            (triple_pure (no_nodes, ctrl)))
        (λ _.
          triple_if (has_prefix ctrl (codes "for "))
            (λ _. triple_bind (consume-control A T k) λ _.
              triple_bind (parse_for_header-keeps ctrl) λ header.
                triple_bind (ih (k - 1) lm A T) λ r.
                  triple_if (r.1 == codes "}")
                    (λ e.
                      triple_bind
                        (consume_stop (A ++ shell_of r.0) T (k - 1) r.1 (stop-eq r.1 _ _ e))
                        λ _.
                          node_last A (shell_of r.0) T (k - 1 - 1) k (loop_node header r.0)
                            (loop_node-shell header r.0) (omega (arith, lm)) (omega arith))
                    (λ _. refuse unclosed_for (λ q. cc q, λ q. cc q)))
            (λ _.
              triple_if (has_prefix ctrl (codes "if "))
                (λ _. triple_bind (consume-control A T k) λ _.
                  triple_bind (parse_expr_from_header-keeps (drop 3 ctrl)) λ cond.
                    triple_bind (parse_branches-Reads fuel cond A T (k - 1) le lm)
                      λ r. node_last A _ T (k - 1) k (branching r.0 r.1) refl lm (omega arith))
                (λ _.
                  triple_bind
                    (triple_gets {Q = λ lines s. Left A T (k - 1) lines.1} (gather 0)
                      λ s h. gathered A T k s h.0 h.1)
                    λ lines.
                      triple_bind (triple_modify (Left A T (k - 1)) (λ _. lines.1) λ s h. h) λ _.
                        triple_pre
                          (λ s h.
                            Left-more _ _ T (k - 1) (k - 1) s (sym (append-nil A)) (omega arith) h)
                          (node_last A [] T (k - 1) k (statement (join lines.0 (codes "\n"))) refl
                            lm (omega arith)))))

  block_at-Reads :
      (fuel : ℕ) (lines : List Str) (A T : List Str) (k : ℕ)
      → k - 1 ≤ fuel
      → k - 1 ≤ m
      → Triple (λ s. Left A T k s × (lines ≡ s)) (block_at block fuel lines) (Read A T k) Never
  unfolding block_at shell_of_node shell_of
  block_at-Reads fuel [] A T k le lm =
      triple_pre (λ s h. (Left-more _ _ T k k s (sym (append-nil A)) (omega arith) h.0, sym h.1))
        (triple_pure (no_nodes, []))
  block_at-Reads fuel (line ∷ rest) A T k le lm =
      triple_if (is_ctrl_line line)
        (λ e.
          triple_pre (λ s h. (h.0, subst AtControl h.1 e))
            (parse_control-Reads fuel (ctrl_content line) A T k le lm))
        (λ e.
          triple_bind
            (triple_modify (Left (A ++ (line ∷ [])) T (k - 1)) next_line_of λ s h.
              subst (λ x. Left (A ++ (line ∷ [])) T (k - 1) (next_line_of x)) h.1
                (consumed_shell A T k line rest (subst (Left A T k) (sym h.1) h.0) e))
            λ _. node_last A (line ∷ []) T (k - 1) k (shell_line line) refl lm (omega arith))

parse_block_nodes-Reads : (fuel k : ℕ) → k ≤ fuel → Blocks k (parse_block_nodes fuel)
unfolding parse_block_nodes
parse_block_nodes-Reads zero zero le A T = triple_never λ s h. omega (arith, h.1)
parse_block_nodes-Reads zero (suc k) le A T = absurd (omega (arith, le))
parse_block_nodes-Reads (suc fuel) k le A T =
    triple_bind
      (triple_gets {Q = λ lines s. Left A T k s × (lines ≡ s)} (λ ls. ls) λ s h. (h, refl))
      λ lines.
        block_at-Reads fuel (parse_block_nodes fuel) (parse_block_nodes-Reads fuel) (suc fuel) lines
          A T k (omega (arith, le)) (omega (arith, le))

parse_whole_body-Reads :
    (fuel k : ℕ) (T : List Str)
    → k ≤ fuel
    → Triple (Left [] T k) (parse_whole_body fuel) (λ ns _. shell_of ns ≡ T) Never
unfolding parse_whole_body shell_in
parse_whole_body-Reads fuel k T le = triple_bind (parse_block_nodes-Reads fuel k le [] T) λ r.
    triple_if (r.1 == [])
      (λ e.
        triple_pre
          (λ s h.
            sym (append-nil (shell_of r.0))
            ∙ (ap (λ x. shell_of r.0 ++ shell_in x)
                  (sym (subst (λ x. Stopped x s) ((eq_iff r.1 []).0 e) h.1))
                ∙ h.0.0))
          (triple_pure r.0))
      (λ _. refuse (unexpected_closer r.1) (λ q. cc q, λ q. cc q))

abbrev Outcome : List Str → Result BodyError Nodes × List Str → Type 0
Outcome T r = Post (λ ns _. shell_of ns ≡ T) Never r

whole_body-Outcome :
    (lines : List Str) → Outcome (shell_in lines) (parse_whole_body (suc (length lines)) lines)
whole_body-Outcome lines =
    (parse_whole_body-Reads (suc (length lines)) (suc (length lines)) (shell_in lines)
        (omega arith)).at
      lines (refl, omega arith)

Outcome-Never :
    (T : List Str) (r : Result BodyError Nodes × List Str)
    → Outcome T r
    → (r.0 ≢ err out_of_turns) × (r.0 ≢ err (in_expression out_of_fuel))
Outcome-Never T (ok ns, s) h = (λ q. cc q, λ q. cc q)
Outcome-Never T (err e, s) h = (λ q. h.0 (cc q), λ q. h.1 (cc q))

Outcome-shell :
    (T : List Str) (r : Result BodyError Nodes × List Str) (ns : Nodes)
    → Outcome T r
    → r.0 ≡ ok ns
    → shell_of ns ≡ T
Outcome-shell T (ok ns', s) ns h e = ap shell_of (cc e) ∙ h
Outcome-shell T (err x, s) ns h e = cc e

-- The parser of a body returns on all lines, with a tree or with an error of the body: as many nested
-- blocks and branches as there are lines are enough, and so is the fuel of its expressions.
pub parse_body_nodes_lem :
    (lines : List Str)
    → (parse_body_nodes lines ≢ err out_of_turns)
      × (parse_body_nodes lines ≢ err (in_expression out_of_fuel))
unfolding parse_body_nodes
parse_body_nodes_lem lines = Outcome-Never (shell_in lines) _ (whole_body-Outcome lines)

-- The tree of a body holds each of its shell lines once and in order, whatever the blocks are.
pub shell_of-parse_body_nodes :
    (lines : List Str) (nodes : Nodes)
    → parse_body_nodes lines ≡ ok nodes
    → shell_of nodes ≡ shell_in lines
unfolding parse_body_nodes
shell_of-parse_body_nodes lines nodes e =
    Outcome-shell (shell_in lines) _ nodes (whole_body-Outcome lines) e
