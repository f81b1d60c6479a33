-- ===== src/Scripts.antt =====
-- scripts/: what the command-line programs decide.
pub mod Preflight
pub mod Passes
pub mod Resume
pub mod Recover
pub mod Released
pub mod Demo
pub mod Agrees
