-- ===== src/Sigv4.antt =====
-- src/pa/sigv4.rs. A `str` is the list of its UTF-8 bytes.
pub mod Kinds
pub mod Percent
pub mod Query
pub mod Timestamp
pub mod Headers
pub mod Sign
mod Examples
