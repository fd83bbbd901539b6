-- ===== src/Server.antt =====
-- bins/secgit-server: the controls against abuse.
pub mod Semaphore
pub mod RateLimiter
