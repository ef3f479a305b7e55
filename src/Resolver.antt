-- ===== src/Resolver.antt =====
-- The resolver of compositions, crates/cartridge-core/src/resolver.rs.
pub mod Types
pub mod Checks
pub mod Dependencies
pub mod Lock
pub mod Graph
pub mod Authority
mod Examples
