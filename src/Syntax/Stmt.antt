-- ===== src/Syntax/Stmt.antt =====
-- internal/ast/ast.go: the statements. An absent operand is nil; a `for` has an iterator or a condition.
use cgpipe.Prelude.{List, Option}
use cgpipe.Text.{Str}
use cgpipe.Syntax.Token
use cgpipe.Syntax.Ast.{Expr, Exprs, Operand}

pub record Body : Type 0 where
  pub pos : Token.Pos
  pub raw : Str

mutual
  pub data Stmt : Type 0 where
    assign : Token.Pos → Str → Operand → Token.Kind → Expr → Stmt
    expr_stmt include eval_stmt sleep : Token.Pos → Expr → Stmt
    print : Token.Pos → Exprs → Stmt
    exit_with : Token.Pos → Operand → Stmt
    unset : Token.Pos → Str → Stmt
    if_chain : Token.Pos → Arms → Stmts → Stmt
    for_loop : Token.Pos → Str → Str → Operand → Operand → Stmts → Stmt
    snippet : Token.Pos → Str → Str → Stmt
    export : Token.Pos → Str → Expr → Stmt
    var_decl : Token.Pos → Str → Operand → Stmt
    stage : Token.Pos → Str → Str → List Str → Stmt
    dumpvars showhelp : Token.Pos → Stmt
    target : Token.Pos → Str → List Str → List Str → Option Body → Stmt

  pub data Stmts : Type 0 where
    no_stmts : Stmts
    stmt_then : Stmt → Stmts → Stmts

  -- The conditions of an `if` with their blocks.
  pub data Arms : Type 0 where
    no_arms : Arms
    arm_then : Expr → Stmts → Arms → Arms

pub record File : Type 0 where
  pub stmts : Stmts
  pub help : Str
