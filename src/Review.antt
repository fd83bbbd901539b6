-- ===== src/Review.antt =====
-- crates/secgit-review: pull requests, reviews, checks and the gate of a merge.
pub mod Model
pub mod Gate
pub mod Issue
pub mod Reviews
