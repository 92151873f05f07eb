-- ===== src/Syntax/Ast.antt =====
-- internal/ast/ast.go: the expressions. A float literal keeps its text.
use cgpipe.Prelude.{ℕ, Bool}
use cgpipe.Text.{Str}
use cgpipe.Syntax.Token

mutual
  pub data Expr : Type 0 where
    int_lit : Token.Pos → ℕ → Expr
    float_lit string_lit ident : Token.Pos → Str → Expr
    bool_lit : Token.Pos → Bool → Expr
    list_lit : Token.Pos → Exprs → Expr
    range_lit index : Token.Pos → Expr → Expr → Expr
    slice : Token.Pos → Expr → Operand → Operand → Expr
    call : Token.Pos → Operand → Str → Exprs → KwArgs → Expr
    map_lit : Token.Pos → Entries → Expr
    unary : Token.Pos → Token.Kind → Expr → Expr
    binary : Token.Pos → Token.Kind → Expr → Expr → Expr

  -- An operand that may be nil.
  pub data Operand : Type 0 where
    absent : Operand
    present : Expr → Operand

  pub data Exprs : Type 0 where
    no_exprs : Exprs
    expr_then : Expr → Exprs → Exprs

  pub data KwArgs : Type 0 where
    no_kwargs : KwArgs
    kwarg_then : Str → Expr → KwArgs → KwArgs

  pub data Entries : Type 0 where
    no_entries : Entries
    entry_then : Expr → Expr → Entries → Entries
