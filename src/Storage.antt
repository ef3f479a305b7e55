-- ===== src/Storage.antt =====
-- The in-memory storage backend, crates/cartridge-storage/src/lib.rs.
pub mod Types
pub mod Validate
pub mod Mutations
pub mod Memory
