-- ===== src/Syntax.antt =====
-- Packages token, lexer, ast and parser.
pub mod Token
pub mod Ast
pub mod Lexer
pub mod Cursor
pub mod Parser
pub mod Words
pub mod Stmt
pub mod Lookahead
pub mod Targets
pub mod Simple
pub mod Statements
