-- ===== src/Network.antt =====
-- The network library, crates/cartridge-network/src/lib.rs.
pub mod Limits
pub mod Document
pub mod Rollback
pub mod Asset
pub mod Channel
pub mod Session
pub mod Http
pub mod Simulation
