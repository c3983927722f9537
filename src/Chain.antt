-- ===== src/Chain.antt =====
-- Package chain.
pub mod Cached
