-- ===== src/Review/Issue.antt =====
-- crates/secgit-review/src/model.rs: issues, comments and threads.
use secgit.Prelude.{ℕ, String, Bool, Option, List}

pub data IssueState : Type 0 where
  opened closed : IssueState

pub record Comment : Type 0 where
  pub id : String
  pub author_id : String
  pub body : String
  pub suggestion : Option String
  pub created_at : ℕ

pub record Issue : Type 0 where
  pub id : String
  pub repo_id : String
  pub number : ℕ
  pub title : String
  pub body : String
  pub author_id : String
  pub state : IssueState
  pub labels : List String
  pub comments : List Comment
  pub created_at : ℕ
  pub updated_at : ℕ

pub record ReviewThread : Type 0 where
  pub id : String
  pub pr_id : String
  pub path : String
  pub line : ℕ
  pub resolved : Bool
  pub comments : List Comment
