-- ===== src/Review/Model.antt =====
-- crates/secgit-review/src/model.rs: pull requests, reviews, status checks and branch protection.
use secgit.Prelude.{ℕ, String, Bool, false, List, []}

pub data PrState : Type 0 where
  opened merged closed : PrState

pub record PullRequest : Type 0 where
  pub id : String
  pub repo_id : String
  pub number : ℕ
  pub title : String
  pub description : String
  pub author_id : String
  pub source_branch : String
  pub target_branch : String
  pub head_sha : String
  pub state : PrState
  pub created_at : ℕ
  pub updated_at : ℕ

pub data ReviewState : Type 0 where
  approved changes_requested commented : ReviewState

pub record Review : Type 0 where
  pub id : String
  pub pr_id : String
  pub reviewer_id : String
  pub state : ReviewState
  pub head_sha : String
  pub created_at : ℕ

pub data CheckState : Type 0 where
  pending success failure : CheckState

pub record StatusCheck : Type 0 where
  pub pr_id : String
  pub context : String
  pub state : CheckState
  pub description : String
  pub head_sha : String

pub record BranchProtection : Type 0 where
  pub repo_id : String
  pub branch : String
  pub required_approvals : ℕ
  pub required_checks : List String
  pub block_direct_push : Bool
  pub dismiss_stale_approvals : Bool

abbrev pub unprotected : String → String → BranchProtection
unprotected repo_id branch = record {
  repo_id = repo_id;
  branch = branch;
  required_approvals = 0;
  required_checks = [];
  block_direct_push = false;
  dismiss_stale_approvals = false;
}
