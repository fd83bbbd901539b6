-- ===== src/Identity/Model.antt =====
-- crates/secgit-identity/src/model.rs, and the errors of its lib.rs.
use secgit.Prelude.{ℕ, String, Bool, List}

pub data IdentityError : Type 0 where
  auth_failed crypto : IdentityError
  not_found exists storage serde : String → IdentityError

pub data Result {ℓ} (A : Type ℓ) : Type ℓ where
  ok : A → Result A
  err : IdentityError → Result A

pub data Role : Type 0 where
  read write admin : Role

-- The order of the variants: Read < Write < Admin.
abbrev pub rank : Role → ℕ
rank read = 1
rank write = 2
rank admin = 3

pub data OrgRole : Type 0 where
  member owner : OrgRole

pub record User : Type 0 where
  pub id : String
  pub username : String
  pub email : String

pub record Org : Type 0 where
  pub id : String
  pub slug : String
  pub members : List (String × OrgRole)

pub record Team : Type 0 where
  pub id : String
  pub org_id : String
  pub name : String
  pub member_ids : List String
  pub repo_grants : List (String × Role)

pub data RepoOwner : Type 0 where
  user org : String → RepoOwner

pub record Repo : Type 0 where
  pub id : String
  pub owner : RepoOwner
  pub name : String
  pub private : Bool
  pub collaborators : List (String × Role)
