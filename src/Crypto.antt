-- ===== src/Crypto.antt =====
-- crates/secgit-crypto: the versioned envelope, its framing, and authenticated encryption.
pub mod Error
pub mod Envelope
pub mod Framing
pub mod Aead
pub mod Primitives
pub mod Signature
pub mod Kem
pub mod Tests
