-- ===== src/Keybroker.antt =====
-- crates/secgit-keybroker: the replay guard of the release service, and the release of keys.
pub mod Replay
pub mod Broker
pub mod Tests
