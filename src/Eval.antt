-- ===== src/Eval.antt =====
-- Package eval: the scopes of variables, ranges, and the blocks of bodies.
pub mod Scope
pub mod Body
pub mod Range
pub mod Value
pub mod Operators
pub mod Methods
pub mod Interp
pub mod Frames
pub mod Execute
pub mod Start
mod Samples
