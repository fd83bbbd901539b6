-- ===== src/Audit.antt =====
-- crates/secgit-audit: the transparency log and its Merkle tree.
pub mod Merkle
pub mod Log
pub mod Event
