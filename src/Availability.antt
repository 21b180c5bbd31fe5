-- ===== src/Availability.antt =====
-- src/pa/availability.rs
pub mod Dates
pub mod Errors
pub mod Busy
pub mod Grid
pub mod Policy
pub mod Slots
mod Examples
