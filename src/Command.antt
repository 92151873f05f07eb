-- ===== src/Command.antt =====
-- Package main: what the commands do with their arguments.
pub mod Args
pub mod Subst
