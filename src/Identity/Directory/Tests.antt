-- ===== src/Identity/Directory/Tests.antt =====
-- Runs of the model of the access-control resolver, and the theorems about it at concrete inputs.
use secgit.Prelude.Maps.{lookup, values}
use secgit.Prelude.{◌≡◌, ◌≤◌, ◌↔◌, refl, some, true, [], ◌∷◌}
use secgit.Identity.Model.{
  Role, read, write, admin, rank, member, owner, Team, Org, Repo, RepoOwner,
}
use secgit.Identity.Directory.{Directory, effective_role, can, repos_visible_to}
use secgit.Identity.Directory.Roles.{Grants, IsBest}
use secgit.Identity.Directory.Effective.{effective_role-IsBest, can_iff}

abbrev core : Repo
core = record {
  id = "core";
  owner = RepoOwner.org "acme";
  name = "core";
  private = true;
  collaborators = ("bob", read) ∷ [];
}

abbrev dev : Team
dev = record {
  id = "dev";
  org_id = "acme";
  name = "dev";
  member_ids = "bob" ∷ "eve" ∷ [];
  repo_grants = ("core", write) ∷ [];
}

abbrev acme : Org
acme = record { id = "acme"; slug = "acme"; members = ("ann", owner) ∷ ("bob", member) ∷ [] }

abbrev directory : Directory
directory = record {
  users = [];
  orgs = ("acme", acme) ∷ [];
  teams = ("dev", dev) ∷ [];
  repos = ("core", core) ∷ [];
}

-- The team's grant raises the collaborator's role; an organisation's owner has every role.
bob_run : effective_role directory "bob" "core" ≡ some write
unfolding effective_role lookup values
bob_run = refl

ann_run : effective_role directory "ann" "core" ≡ some admin
unfolding effective_role lookup values
ann_run = refl

eve_run : repos_visible_to directory "eve" ≡ core ∷ []
unfolding repos_visible_to values lookup
eve_run = refl

stranger_run : repos_visible_to directory "zoe" ≡ []
unfolding repos_visible_to values lookup
stranger_run = refl

effective_role-IsBest_example :
    IsBest (Grants directory "bob" "core" core) (effective_role directory "bob" "core")
unfolding lookup
effective_role-IsBest_example = effective_role-IsBest directory "bob" "core" core refl

can_iff_example :
    (can directory "bob" "core" admin ≡ true)
    ↔ ((r : Role) × Grants directory "bob" "core" core r × (rank admin ≤ rank r))
unfolding lookup
can_iff_example = can_iff directory "bob" "core" core admin refl
