-- ===== src/Manifest.antt =====
-- Manifests of packages, crates/cartridge-core/src/manifest.rs.
mod Examples
pub mod Types
pub mod Names
pub mod Limits
pub mod Relations
pub mod State
pub mod Integrity
pub mod Platform
pub mod Package
