-- ===== src/Syntax/Lookahead.antt =====
-- internal/parser/parser.go: the scans over the tokens of a line that decide what a statement is. The
-- depth of brackets may fall below zero, so it is the number of those that opened and of those that
-- closed.
use cgpipe.Prelude.{ℕ, suc, Bool, true, false, Option, none, some, nat_eq, ◌==◌}
use cgpipe.Syntax.Token
use cgpipe.Syntax.Cursor.{Toks, last, ahead, cur}

pub record Depth : Type 0 where
  pub opened : ℕ
  pub closed : ℕ

abbrev pub no_depth : Depth
no_depth = record { opened = 0; closed = 0 }

abbrev pub flat : Depth → Bool
flat d = d.opened == d.closed

abbrev pub depth_behind : Token.Kind → Depth → Depth
depth_behind Token.l_brack d = record d { opened = suc d.opened }
depth_behind Token.l_paren d = record d { opened = suc d.opened }
depth_behind Token.r_brack d = record d { closed = suc d.closed }
depth_behind Token.r_paren d = record d { closed = suc d.closed }
depth_behind _ d = d

-- The first answer that `here` gives for a token and whether it is at depth 0.
unfoldable pub scan {ℓ} :
    {A : Type ℓ} → (Token.Kind → Bool → Toks → Option A) → Depth → Toks → Option A
scan here d (last t) = here t.kind (flat d) (last t)
scan here d (ahead t ts) = elim (here t.kind (flat d) (ahead t ts)) [
  | some a ↦ some a
  | none ↦ scan here (depth_behind t.kind d) ts
]

abbrev pub at_flat {ℓ} : {A : Type ℓ} → A → Bool → Option A
at_flat a true = some a
at_flat a false = none

abbrev pub is_true : Option Bool → Bool
is_true none = false
is_true (some b) = b

abbrev pub assignment_here : Token.Kind → Bool → Toks → Option Bool
assignment_here Token.assign b s = at_flat true b
assignment_here Token.q_assign b s = at_flat true b
assignment_here Token.plus_assign b s = at_flat true b
assignment_here Token.colon b s = at_flat false b
assignment_here Token.l_body b s = at_flat false b
assignment_here Token.newline b s = at_flat false b
assignment_here Token.semi b s = at_flat false b
assignment_here Token.eof b s = at_flat false b
assignment_here _ b s = none

unfoldable pub line_is_assignment : Toks → Bool
unfolding scan
line_is_assignment s = is_true (scan assignment_here no_depth s)

-- `[` is answered where it is at depth 0; the depth is kept for the tokens behind it.
abbrev pub index_here : Token.Kind → Bool → Toks → Option Bool
index_here Token.l_brack b s = at_flat true b
index_here Token.assign b s = at_flat false b
index_here Token.q_assign b s = at_flat false b
index_here Token.plus_assign b s = at_flat false b
index_here Token.newline b s = some false
index_here Token.semi b s = some false
index_here Token.eof b s = some false
index_here _ b s = none

unfoldable pub lhs_has_index : Toks → Bool
unfolding scan
lhs_has_index s = is_true (scan index_here no_depth s)

-- findColon; the inner `none` is an end of the declaration without a colon.
abbrev pub colon_here : Token.Kind → Bool → Toks → Option (Option ℕ)
colon_here Token.colon b s = at_flat (some (cur s).pos.off) b
colon_here Token.l_body b s = at_flat none b
colon_here Token.newline b s = at_flat none b
colon_here Token.semi b s = at_flat none b
colon_here Token.eof b s = at_flat none b
colon_here _ b s = none

abbrev pub colon_found : Option (Option ℕ) → Option ℕ
colon_found none = none
colon_found (some c) = c

unfoldable pub find_colon : Toks → Option ℕ
unfolding scan
find_colon s = colon_found (scan colon_here no_depth s)

-- scanDeclEnd: the tokens from the terminator on, and whether that is a body.
abbrev pub end_here : Token.Kind → Bool → Toks → Option (Toks × Bool)
end_here Token.l_body b s = at_flat (s, true) b
end_here Token.newline b s = at_flat (s, false) b
end_here Token.semi b s = at_flat (s, false) b
end_here Token.eof b s = at_flat (s, false) b
end_here _ b s = none

abbrev pub last_of : Toks → Toks
last_of (last t) = last t
last_of (ahead t ts) = last_of ts

abbrev pub end_found : Toks → Option (Toks × Bool) → Toks × Bool
end_found s none = (last_of s, false)
end_found s (some e) = e

unfoldable pub scan_decl_end : Toks → Toks × Bool
unfolding scan
scan_decl_end s = end_found s (scan end_here no_depth s)
