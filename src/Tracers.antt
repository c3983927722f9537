-- ===== src/Tracers.antt =====
-- Package dyengine/tracers.
pub mod Position
pub mod Call
pub mod Nested
pub mod Blocks
mod Tests
