-- ===== src/Contract.antt =====
-- Package contract.
pub mod Encoding
