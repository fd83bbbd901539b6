-- ===== src/Identity/Directory/Roles.antt =====
-- lib.rs of secgit-identity: the effective role is the highest role that any rule grants.
use secgit.Prelude.{
  ◌≤◌, String, ◌≡◌, refl, sym, ap, ◌⊎◌, inl, inr, Option, none, some, List, [], ◌∷◌, arith, str_eq,
  eq_iff, ltb, Bool-cases,
}
use secgit.Prelude.Maps.{values}
use secgit.Identity.Model.{Role, admin, rank, owner, Team, RepoOwner, Repo}
use secgit.Identity.Directory.{Directory, org_role, bump, bump_matching}

-- Membership that computes to a sum.
abbrev pub In : {A : Type 0} → A → List A → Type 0
In a [] = ⊥
In a (x ∷ xs) = (a ≡ x) ⊎ In a xs

-- The rules that give a user a role on a repository, as the documentation of `effective_role` has
-- them: ownership, ownership of the owning organisation, direct collaboration, a team's grant.
pub data Grants (d : Directory) (user_id repo_id : String) (repo : Repo) (r : Role) : Type 0 where
  personal : repo.owner ≡ RepoOwner.user user_id → r ≡ admin → Grants d user_id repo_id repo r
  organisation :
      (o : String)
      → repo.owner ≡ RepoOwner.org o
      → org_role d o user_id ≡ some owner
      → r ≡ admin
      → Grants d user_id repo_id repo r
  collaborator : In (user_id, r) repo.collaborators → Grants d user_id repo_id repo r
  team :
      (t : Team)
      → In t (values d.teams)
      → In user_id t.member_ids
      → repo.owner ≡ RepoOwner.org t.org_id
      → In (repo_id, r) t.repo_grants
      → Grants d user_id repo_id repo r

-- The best of the roles that a predicate allows, if any.
abbrev pub IsBest : (Role → Type 0) → Option Role → Type 0
IsBest G none = (r : Role) → ¬ G r
IsBest G (some b) = G b × ((r : Role) → G r → rank r ≤ rank b)

pub IsBest-iff :
    (G H : Role → Type 0) (best : Option Role)
    → ((r : Role) → G r → H r)
    → ((r : Role) → H r → G r)
    → IsBest G best
    → IsBest H best
IsBest-iff G H none to from h = λ r k. h r (from r k)
IsBest-iff G H (some b) to from h = (to b h.0, λ r k. h.1 r (from r k))

bump-IsBest :
    (G : Role → Type 0) (r : Role) (best : Option Role)
    → IsBest G best
    → IsBest (λ x. G x ⊎ (x ≡ r)) (bump r best)
unfolding bump
bump-IsBest G r none h =
    (inr refl, λ x g. elim g [ inl a ↦ absurd (h x a) | inr e ↦ rw e (omega arith) ])
bump-IsBest G r (some b) h = elim (Bool-cases (ltb (rank b) (rank r))) [
  | inl higher ↦
      rw higher
        (inr refl, λ x g. elim g [ inl a ↦ ground (arith, h.1 x a) | inr e ↦ rw e (omega arith) ])
  | inr lower ↦ rw lower (inl h.0, λ x g. elim g [ inl a ↦ h.1 x a | inr e ↦ rw e (ground arith) ])
]

pub bump_matching-IsBest :
    (G : Role → Type 0) (key : String) (best : Option Role) (pairs : List (String × Role))
    → IsBest G best
    → IsBest (λ r. G r ⊎ In (key, r) pairs) (bump_matching key best pairs)
unfolding bump_matching
bump_matching-IsBest G key best [] h =
    IsBest-iff G (λ r. G r ⊎ ⊥) best (λ r g. inl g) (λ r g. elim g [ inl a ↦ a | inr n ↦ absurd n ])
      h
bump_matching-IsBest G key best ((k, r) ∷ rest) h = elim (Bool-cases (str_eq k key)) [
  | inl same ↦
      let e = (eq_iff k key).0 same in
      rw same (
        IsBest-iff _ _ (bump_matching key (bump r best) rest)
          (λ x g. elim g [
            | inl (inl a) ↦ inl a
            | inl (inr p) ↦ inr (inl (cc))
            | inr i ↦ inr (inr i)
          ])
          (λ x g. elim g [
            | inl a ↦ inl (inl a)
            | inr (inl p) ↦ inl (inr (ap (λ t. t.1) p))
            | inr (inr i) ↦ inr i
          ])
          (bump_matching-IsBest (λ x. G x ⊎ (x ≡ r)) key (bump r best) rest
            (bump-IsBest G r best h)))
  | inr differ ↦ rw differ (
      IsBest-iff _ _ (bump_matching key best rest)
        (λ x g. elim g [ inl a ↦ inl a | inr i ↦ inr (inr i) ])
        (λ x g. elim g [
          | inl a ↦ inl a
          | inr (inl p) ↦ absurd (cc (differ, (eq_iff k key).1 (ap (λ t. t.0) (sym p))))
          | inr (inr i) ↦ inr i
        ])
        (bump_matching-IsBest G key best rest h))
]
