-- ===== src/Auth.antt =====
-- src/pa/auth.rs
pub mod Hex
pub mod Guard
pub mod Request
pub mod Once
mod Examples
