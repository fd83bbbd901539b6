-- ===== src/Identity.antt =====
-- crates/secgit-identity: users, organisations, teams and repositories, and who may do what.
pub mod Model
pub mod Directory
pub mod Session
