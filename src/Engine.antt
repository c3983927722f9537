-- ===== src/Engine.antt =====
-- Package dyengine.
pub mod StateDb
pub mod Forked
pub mod Execution
pub mod World
pub mod Tests
