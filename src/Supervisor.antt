-- ===== src/Supervisor.antt =====
-- The runtime status of a stack and its replicas, crates/cartridge-engine/src/supervisor.rs.
pub mod Types
pub mod Names
pub mod Validate
pub mod Change
pub mod Probes
pub mod Operations
