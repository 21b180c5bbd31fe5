-- ===== src/Phonebook.antt =====
-- src/phonebook.rs: the phone book and the access decisions it gives.
pub mod CallerId
pub mod Entries
pub mod Store
mod Examples
