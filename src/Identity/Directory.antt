-- ===== src/Identity/Directory.antt =====
-- crates/secgit-identity/src/lib.rs: `Directory`, its tables and the access-control resolver.
-- A hash map is an association list; the order of its values is that of the list.
pub mod Roles
pub mod Effective
pub mod Tests
use secgit.Prelude.{
  ℕ, String, ◌≡◌, Bool, true, false, not, Option, none, some, List, [], ◌∷◌, any, str_eq, ltb, leb,
  if◌then◌else◌,
}
use secgit.Prelude.Maps.{Map, lookup, contains_key, insert, remove, values}
use secgit.Identity.Model.{
  IdentityError, not_found, exists, Result, ok, err, Role, read, write, admin, rank, OrgRole,
  member, User, Org, Team, RepoOwner, Repo,
}
use secgit.Identity.Model

pub record Directory : Type 0 where
  pub users : Map User
  pub orgs : Map Org
  pub teams : Map Team
  pub repos : Map Repo

abbrev pub new_directory : Directory
new_directory = record { users = []; orgs = []; teams = []; repos = [] }

-- An insertion that refuses a key in use, and a replacement that refuses an unknown one.
module _ {V : Type 0} where
  pub add_new : String → V → Map V → Result (Map V)
  add_new id v m = if contains_key id m then err (exists id) else ok (insert id v m)

  pub replace : String → V → Map V → Result (Map V)
  replace id v m = if contains_key id m then ok (insert id v m) else err (not_found id)

  pub take_out : String → Map V → Result (Map V)
  take_out id m = if contains_key id m then ok (remove id m) else err (not_found id)

on_users : Directory → Result (Map User) → Result Directory
on_users d (ok m) = ok (record d { users = m })
on_users d (err e) = err e

on_orgs : Directory → Result (Map Org) → Result Directory
on_orgs d (ok m) = ok (record d { orgs = m })
on_orgs d (err e) = err e

on_teams : Directory → Result (Map Team) → Result Directory
on_teams d (ok m) = ok (record d { teams = m })
on_teams d (err e) = err e

on_repos : Directory → Result (Map Repo) → Result Directory
on_repos d (ok m) = ok (record d { repos = m })
on_repos d (err e) = err e

pub add_user : Directory → User → Result Directory
unfolding on_users add_new
add_user d u = on_users d (add_new u.id u d.users)

pub add_org : Directory → Org → Result Directory
unfolding on_orgs add_new
add_org d o = on_orgs d (add_new o.id o d.orgs)

-- Alone of the four, it replaces a team of the same name.
pub add_team : Directory → Team → Result Directory
add_team d t = ok (record d { teams = insert t.id t d.teams })

pub add_repo : Directory → Repo → Result Directory
unfolding on_repos add_new
add_repo d r = on_repos d (add_new r.id r d.repos)

pub update_user : Directory → User → Result Directory
unfolding on_users replace
update_user d u = on_users d (replace u.id u d.users)

pub update_org : Directory → Org → Result Directory
unfolding on_orgs replace
update_org d o = on_orgs d (replace o.id o d.orgs)

pub update_team : Directory → Team → Result Directory
unfolding on_teams replace
update_team d t = on_teams d (replace t.id t d.teams)

pub update_repo : Directory → Repo → Result Directory
unfolding on_repos replace
update_repo d r = on_repos d (replace r.id r d.repos)

pub remove_user : Directory → String → Result Directory
unfolding on_users take_out
remove_user d id = on_users d (take_out id d.users)

pub remove_org : Directory → String → Result Directory
unfolding on_orgs take_out
remove_org d id = on_orgs d (take_out id d.orgs)

pub remove_team : Directory → String → Result Directory
unfolding on_teams take_out
remove_team d id = on_teams d (take_out id d.teams)

pub remove_repo : Directory → String → Result Directory
unfolding on_repos take_out
remove_repo d id = on_repos d (take_out id d.repos)

find_member : String → List (String × OrgRole) → Option OrgRole
find_member user_id [] = none
find_member user_id ((u, r) ∷ rest) = if str_eq u user_id then some r else find_member user_id rest

role_in : String → Option Org → Option OrgRole
unfolding find_member
role_in user_id none = none
role_in user_id (some o) = find_member user_id o.members

pub org_role : Directory → String → String → Option OrgRole
unfolding role_in
org_role d org_id user_id = role_in user_id (lookup org_id d.orgs)

-- The closure `bump`: a role replaces a lower one.
pub bump : Role → Option Role → Option Role
bump r none = some r
bump r (some b) = if ltb (rank b) (rank r) then some r else some b

is_owner : Option OrgRole → Bool
is_owner (some Model.owner) = true
is_owner _ = false

owner_grant : Directory → String → RepoOwner → Option Role
unfolding is_owner bump org_role
owner_grant d user_id (RepoOwner.user owner) =
    if str_eq owner user_id then bump admin none else none
owner_grant d user_id (RepoOwner.org org_id) =
    if is_owner (org_role d org_id user_id) then bump admin none else none

-- The loops over collaborators and over a team's grants: each pair with this key bumps.
pub bump_matching : String → Option Role → List (String × Role) → Option Role
unfolding bump
bump_matching key best [] = best
bump_matching key best ((k, r) ∷ rest) =
    bump_matching key (if str_eq k key then bump r best else best) rest

owned_by : RepoOwner → String → Bool
owned_by (RepoOwner.user u) org_id = false
owned_by (RepoOwner.org o) org_id = str_eq org_id o

pub team_loop : String → String → RepoOwner → Option Role → List Team → Option Role
unfolding bump_matching owned_by
team_loop user_id repo_id owner best [] = best
team_loop user_id repo_id owner best (t ∷ rest) =
    team_loop user_id repo_id owner
      (if not (any (λ m. str_eq m user_id) t.member_ids)
        then best
        else if owned_by owner t.org_id
        then bump_matching repo_id best t.repo_grants
        else best)
      rest

role_on : Directory → String → String → Option Repo → Option Role
unfolding owner_grant bump_matching team_loop
role_on d user_id repo_id none = none
role_on d user_id repo_id (some repo) =
    team_loop user_id repo_id repo.owner
      (bump_matching user_id (owner_grant d user_id repo.owner) repo.collaborators) (values d.teams)

pub effective_role : Directory → String → String → Option Role
unfolding role_on
effective_role d user_id repo_id = role_on d user_id repo_id (lookup repo_id d.repos)

at_least : Role → Option Role → Bool
at_least required none = false
at_least required (some r) = leb (rank required) (rank r)

pub can : Directory → String → String → Role → Bool
unfolding at_least effective_role
can d user_id repo_id required = at_least required (effective_role d user_id repo_id)

visible : Directory → String → List Repo → List Repo
unfolding can
visible d user_id [] = []
visible d user_id (r ∷ rest) =
    if can d user_id r.id read then r ∷ visible d user_id rest else visible d user_id rest

pub repos_visible_to : Directory → String → List Repo
unfolding visible
repos_visible_to d user_id = visible d user_id (values d.repos)
