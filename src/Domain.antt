-- ===== src/Domain.antt =====
-- src/pa/domain.rs: the values of the assistant.
pub mod Kinds
pub mod Email
pub mod Quote
pub mod Drafts
pub mod Proposal
mod Examples
