-- ===== src/Network/Http.antt =====
-- HTTP requests, the policy that admits them, and their fixtures, crates/cartridge-network/src/lib.rs.
pub mod Headers
pub mod Policy
pub mod Fixtures
pub mod Service
mod Examples
