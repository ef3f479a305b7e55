-- ===== src/Rollout.antt =====
-- The progress of a live rollout, crates/cartridge-engine/src/rollout_progress.rs.
pub mod Types
pub mod Validate
pub mod Operations
pub mod Observe
pub mod Schedule
mod Examples
