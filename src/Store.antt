-- ===== src/Store.antt =====
-- src/pa/store.rs
pub mod Errors
pub mod Names
pub mod Instants
pub mod Texts
pub mod Templates
pub mod Outbox
pub mod Replay
pub mod Table
pub mod Paging
pub mod Audit
pub mod Cursor
pub mod Messages
pub mod Tasks
mod Samples
mod Examples
mod Runs
