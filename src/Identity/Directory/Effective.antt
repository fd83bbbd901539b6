-- ===== src/Identity/Directory/Effective.antt =====
-- lib.rs of secgit-identity: `effective_role` and `can` against the rules.
use secgit.Prelude.{
  ◌≤◌, String, ◌≡◌, refl, sym, ap, subst, ◌∙◌, ◌↔◌, ◌⊎◌, inl, inr, true, not, Option, none, some,
  List, [], ◌∷◌, any, arith, str_eq, eq_iff, leb→le, le→leb, if◌then◌else◌, Bool-cases,
}
use secgit.Prelude.Maps.{lookup, values}
use secgit.Identity.Model.{
  Role, read, write, admin, rank, OrgRole, owner, member, Team, RepoOwner, Repo,
}
use secgit.Identity.Directory.{
  Directory, org_role, bump, is_owner, owner_grant, bump_matching, owned_by, team_loop, role_on,
  effective_role, at_least, can,
}
use secgit.Identity.Directory.Roles.{
  In, Grants, personal, organisation, collaborator, team, IsBest, IsBest-iff, bump_matching-IsBest,
}

any_iff : (u : String) (ids : List String) → (any (λ m. str_eq m u) ids ≡ true) ↔ In u ids
any_iff u [] = (λ h. absurd (cc h), λ i. absurd i)
any_iff u (m ∷ ids) =
    let (to, from) = any_iff u ids in
    (
      λ h. elim (Bool-cases (str_eq m u)) [
        | inl e ↦ inl (sym ((eq_iff m u).0 e))
        | inr n ↦ inr (to (ground (arith, n)))
      ],
      λ i. elim i [ inl e ↦ rw ((eq_iff m u).1 (sym e)) | inr j ↦ ground (arith, from j) ],
    )

owned_by_iff :
    (o : RepoOwner) (org_id : String) → (owned_by o org_id ≡ true) ↔ (o ≡ RepoOwner.org org_id)
unfolding owned_by
owned_by_iff (RepoOwner.user u) org_id = (λ h. cc, λ h. cc)
owned_by_iff (RepoOwner.org o) org_id =
    (λ h. ap RepoOwner.org (sym ((eq_iff org_id o).0 h)), λ h. (eq_iff org_id o).1 (cc))

abbrev FromTeam : String → String → RepoOwner → Team → Role → Type 0
FromTeam user_id repo_id o t r =
    In user_id t.member_ids × (o ≡ RepoOwner.org t.org_id) × In (repo_id, r) t.repo_grants

module _ (user_id repo_id : String) (o : RepoOwner) where
  abbrev team_step : Option Role → Team → Option Role
  team_step best t =
      if not (any (λ m. str_eq m user_id) t.member_ids)
      then best
      else if owned_by o t.org_id
      then bump_matching repo_id best t.repo_grants
      else best

  team_step-IsBest :
      (G : Role → Type 0) (best : Option Role) (t : Team)
      → IsBest G best
      → IsBest (λ r. G r ⊎ FromTeam user_id repo_id o t r) (team_step best t)
  team_step-IsBest G best t h = elim (Bool-cases (any (λ m. str_eq m user_id) t.member_ids)) [
    | inr out ↦ rw out (
        IsBest-iff G _ best (λ r g. inl g)
          (λ r g. elim g [
            | inl a ↦ a
            | inr f ↦ absurd (cc (out, (any_iff user_id t.member_ids).1 f.0))
          ])
          h)
    | inl inside ↦ elim (Bool-cases (owned_by o t.org_id)) [
      | inr other ↦
          rw (inside, other)
            (IsBest-iff G _ best (λ r g. inl g)
              (λ r g. elim g [
                | inl a ↦ a
                | inr f ↦ absurd (cc (other, (owned_by_iff o t.org_id).1 f.1))
              ])
              h)
      | inl ours ↦
          rw (inside, ours)
            (IsBest-iff _ _ (bump_matching repo_id best t.repo_grants)
              (λ r g. elim g [
                | inl a ↦ inl a
                | inr i ↦
                    inr
                      ((any_iff user_id t.member_ids).0 inside, (owned_by_iff o t.org_id).0 ours, i)
              ])
              (λ r g. elim g [ inl a ↦ inl a | inr f ↦ inr f.2 ])
              (bump_matching-IsBest G repo_id best t.repo_grants h))
    ]
  ]

  team_loop-IsBest :
      (G : Role → Type 0) (best : Option Role) (ts : List Team)
      → IsBest G best
      → IsBest
          (λ r. G r ⊎ ((t : Team) × In t ts × FromTeam user_id repo_id o t r))
          (team_loop user_id repo_id o best ts)
  unfolding team_loop
  team_loop-IsBest G best [] h =
      IsBest-iff G _ best (λ r g. inl g) (λ r g. elim g [ inl a ↦ a | inr (t, i, f) ↦ absurd i ]) h
  team_loop-IsBest G best (t ∷ ts) h =
      IsBest-iff _ _ (team_loop user_id repo_id o (team_step best t) ts)
        (λ r g. elim g [
          | inl (inl a) ↦ inl a
          | inl (inr f) ↦ inr (t, inl refl, f)
          | inr (t', i, f) ↦ inr (t', inr i, f)
        ])
        (λ r g. elim g [
          | inl a ↦ inl (inl a)
          | inr (t', inl e, f) ↦ inl (inr (subst (λ s. FromTeam user_id repo_id o s r) e f))
          | inr (t', inr i, f) ↦ inr (t', i, f)
        ])
        (team_loop-IsBest (λ r. G r ⊎ FromTeam user_id repo_id o t r) (team_step best t) ts
          (team_step-IsBest G best t h))

abbrev ByOwner : Directory → String → Repo → Role → Type 0
ByOwner d user_id repo r =
    ((repo.owner ≡ RepoOwner.user user_id) × (r ≡ admin))
    ⊎ ((o : String) × (repo.owner ≡ RepoOwner.org o)
        × (org_role d o user_id ≡ some owner)
        × (r ≡ admin))

rank-le : (r : Role) → rank r ≤ 3
rank-le read = omega arith
rank-le write = omega arith
rank-le admin = omega arith

is_owner_iff : (o : Option OrgRole) → (is_owner o ≡ true) ↔ (o ≡ some owner)
unfolding is_owner
is_owner_iff none = (λ h. cc, λ h. cc)
is_owner_iff (some member) = (λ h. cc, λ h. cc)
is_owner_iff (some owner) = (λ h. refl, λ h. refl)

user-injective : {a b : String} → RepoOwner.user a ≡ RepoOwner.user b → a ≡ b
user-injective h = cc

org-injective : {a b : String} → RepoOwner.org a ≡ RepoOwner.org b → a ≡ b
org-injective h = cc

owner_grant-IsBest :
    (d : Directory) (user_id : String) (repo : Repo) (o : RepoOwner)
    → repo.owner ≡ o
    → IsBest (ByOwner d user_id repo) (owner_grant d user_id o)
unfolding owner_grant is_owner bump
owner_grant-IsBest d user_id repo (RepoOwner.user u) e = elim (Bool-cases (str_eq u user_id)) [
  | inl same ↦
      rw same (inl (e ∙ ap RepoOwner.user ((eq_iff u user_id).0 same), refl), λ r g. rank-le r)
  | inr differ ↦ rw differ (λ r g. elim g [
    | inl a ↦ absurd (cc (differ, (eq_iff u user_id).1 (user-injective (sym e ∙ a.0))))
    | inr (o, a, b, c) ↦ absurd (cc (e, a))
  ])
]
owner_grant-IsBest d user_id repo (RepoOwner.org o) e =
    elim (Bool-cases (is_owner (org_role d o user_id))) [
      | inl held ↦
          rw held (inr (o, e, (is_owner_iff (org_role d o user_id)).0 held, refl), λ r g. rank-le r)
      | inr lacks ↦ rw lacks (λ r g. elim g [
        | inl a ↦ absurd (cc (e, a.0))
        | inr (o', a, b, c) ↦ absurd (
            cc (
              lacks,
              (is_owner_iff (org_role d o user_id)).1
                  (ap (λ t. org_role d t user_id) (org-injective (sym e ∙ a)) ∙ b),
            ))
      ])
    ]

-- `effective_role` returns the highest of the roles that the rules grant on a repository that exists,
-- and nothing exactly when no rule grants any.
pub effective_role-IsBest :
    (d : Directory) (user_id repo_id : String) (repo : Repo)
    → lookup repo_id d.repos ≡ some repo
    → IsBest (Grants d user_id repo_id repo) (effective_role d user_id repo_id)
unfolding effective_role role_on
effective_role-IsBest d user_id repo_id repo e = rw e (
    IsBest-iff _ (Grants d user_id repo_id repo) _
      (λ r g. elim g [
        | inl (inl (inl a)) ↦ personal a.0 a.1
        | inl (inl (inr (o, a, b, c))) ↦ organisation o a b c
        | inl (inr i) ↦ collaborator i
        | inr (t, i, f) ↦ team t i f.0 f.1 f.2
      ])
      (λ r g. elim g [
        | personal a b ↦ inl (inl (inl (a, b)))
        | organisation o a b c ↦ inl (inl (inr (o, a, b, c)))
        | collaborator i ↦ inl (inr i)
        | team t i m o g ↦ inr (t, i, (m, o, g))
      ])
      (team_loop-IsBest user_id repo_id repo.owner _ _ (values d.teams) (
        bump_matching-IsBest (ByOwner d user_id repo) user_id (owner_grant d user_id repo.owner)
          repo.collaborators (owner_grant-IsBest d user_id repo repo.owner refl))))

-- A user may act at a level on a repository that exists exactly when some rule grants a role of at
-- least that level.
pub can_iff :
    (d : Directory) (user_id repo_id : String) (repo : Repo) (required : Role)
    → lookup repo_id d.repos ≡ some repo
    → (can d user_id repo_id required ≡ true)
      ↔ ((r : Role) × Grants d user_id repo_id repo r × (rank required ≤ rank r))
unfolding can
can_iff d user_id repo_id repo required e =
    go (effective_role d user_id repo_id) (effective_role-IsBest d user_id repo_id repo e)
  where
    go :
        (o : Option Role)
        → IsBest (Grants d user_id repo_id repo) o
        → (at_least required o ≡ true)
          ↔ ((r : Role) × Grants d user_id repo_id repo r × (rank required ≤ rank r))
    go none h = (λ t. absurd (cc), λ g. absurd (h g.0 g.1))
    go (some b) h = (λ t. (b, h.0, leb→le _ _ t), λ g. le→leb _ _ (omega (arith, h.1 g.0 g.1, g.2)))
