-- ===== src/Dataset.antt =====
-- Package dataset.
pub mod TxHistory
pub mod Involved
pub mod Searcher
mod Tests
