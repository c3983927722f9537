-- ===== src/DataFlow.antt =====
-- Package analysis/data_flow.
pub mod Node
pub mod Stack
pub mod Memory
pub mod Call
pub mod Policy
pub mod Tracer
mod Tests
