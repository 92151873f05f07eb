-- ===== src/Runner.antt =====
-- Package runner: the build driver and what it reads.
pub mod Cache
pub mod Target
pub mod Wildcard
pub mod Driver
pub mod Guarantees
mod Tests
