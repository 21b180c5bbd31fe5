-- ===== src/Fakes.antt =====
-- src/pa/fakes: the deterministic providers.
pub mod Errors
pub mod Operations
pub mod Control
pub mod Keys
pub mod Backup
pub mod Provider
mod Examples
mod Runs
