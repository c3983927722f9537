-- ===== src/Summary.antt =====
-- Package analysis/summary.
pub mod Profit
pub mod Profits
pub mod State
pub mod Transfer
pub mod Calls
pub mod Events
pub mod Tracer
mod Tests
