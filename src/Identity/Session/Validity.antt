-- ===== src/Identity/Session/Validity.antt =====
-- session.rs: which tokens `validate` accepts, and what revocation does.
use secgit.Prelude.{
  ℕ, ◌<◌, String, ◌≡◌, ap, ◌↔◌, Bool, true, Option, none, some, [], ◌∷◌, List, arith, ltb,
  if◌then◌else◌,
}
use secgit.Prelude.Maps.{
  lookup, IsMap, lookup-insert_self, lookup-retain, insert-IsMap, retain-IsMap, remove-IsMap,
}
use secgit.Identity.Session.{
  Session, SessionStore, saturating_add, gc, accept, create, validate, complete_at, complete_mfa,
  revoke, revoke_all_for,
}

abbrev pub kept : ℕ → Option Session → Option Session
kept swept o = elim o as (λ _. Option Session) [
  | none ↦ none
  | some v ↦ if ltb swept v.expires_at then some v else none
]

accept_iff :
    (swept now : ℕ) (x : Session) (o : Option Session)
    → (accept now (kept swept o) ≡ some x)
      ↔ ((o ≡ some x) × (swept < x.expires_at) × (now < x.expires_at) × (x.mfa_satisfied ≡ true))
unfolding accept
accept_iff swept now x none = (λ h. cc, λ h. cc (h.0))
accept_iff swept now x (some y) = (λ h. ground arith, λ h. ground arith)

module _ (hash : String → String) where
  -- The calls that a server makes on the table, each with its clock and its draw.
  pub data Call : Type 0 where
    creates : ℕ → Option String → String → Bool → Call
    validates : ℕ → ℕ → String → Call
    completes revokes revokes_all : String → Call

  unfoldable pub step : Call → SessionStore → SessionStore
  unfolding create validate complete_mfa revoke revoke_all_for
  step (creates now drawn user_id mfa) s = (create hash now drawn user_id mfa s).1
  step (validates swept now token) s = (validate hash swept now token s).1
  step (completes token) s = (complete_mfa hash token s).1
  step (revokes token) s = revoke hash token s
  step (revokes_all user_id) s = revoke_all_for user_id s

  unfoldable pub run : List Call → SessionStore → SessionStore
  unfolding step
  run [] s = s
  run (c ∷ cs) s = run cs (step c s)

  complete-IsMap :
      (token : String) (o : Option Session) (s : SessionStore)
      → IsMap s.by_hash
      → IsMap (complete_at hash token o s).1.by_hash
  unfolding complete_at
  complete-IsMap token none s h = h
  complete-IsMap token (some x) s h = insert-IsMap (hash token) _ s.by_hash h

  pub step-IsMap : (c : Call) (s : SessionStore) → IsMap s.by_hash → IsMap (step c s).by_hash
  unfolding step create validate gc complete_mfa revoke revoke_all_for
  step-IsMap (creates now none user_id mfa) s h = h
  step-IsMap (creates now (some token) user_id mfa) s h = insert-IsMap (hash token) _ s.by_hash h
  step-IsMap (validates swept now token) s h = retain-IsMap _ s.by_hash h
  step-IsMap (completes token) s h = complete-IsMap token (lookup (hash token) s.by_hash) s h
  step-IsMap (revokes token) s h = remove-IsMap (hash token) s.by_hash h
  step-IsMap (revokes_all user_id) s h = retain-IsMap _ s.by_hash h

  pub run-IsMap : (cs : List Call) (s : SessionStore) → IsMap s.by_hash → IsMap (run cs s).by_hash
  unfolding run
  run-IsMap [] s h = h
  run-IsMap (c ∷ cs) s h = run-IsMap cs (step c s) (step-IsMap c s h)

  -- A token is accepted exactly when the table holds its session, the session has not expired at
  -- either reading of the clock, and every factor is satisfied.
  pub validate_iff :
      (s : SessionStore) (swept now : ℕ) (token : String) (x : Session)
      → IsMap s.by_hash
      → ((validate hash swept now token s).0 ≡ some x) ↔ (
          (lookup (hash token) s.by_hash ≡ some x)
          × (swept < x.expires_at)
          × (now < x.expires_at)
          × (x.mfa_satisfied ≡ true))
  unfolding validate gc accept
  validate_iff s swept now token x m =
      rw (lookup-retain (λ y. ltb swept y.expires_at) (hash token) s.by_hash m)
        (accept_iff swept now x (lookup (hash token) s.by_hash))

  abbrev pub session : ℕ → ℕ → String → Bool → Session
  session created ttl user_id mfa = record {
    user_id = user_id;
    expires_at = saturating_add created ttl;
    mfa_satisfied = mfa;
  }

  pub lookup-create :
      (s : SessionStore) (created : ℕ) (token user_id : String) (mfa : Bool)
      → lookup (hash token) (create hash created (some token) user_id mfa s).1.by_hash
        ≡ some (session created s.ttl_secs user_id mfa)
  unfolding create
  lookup-create s created token user_id mfa =
      lookup-insert_self (hash token) (session created s.ttl_secs user_id mfa) s.by_hash

  pub lookup-complete_mfa :
      (s : SessionStore) (token : String) (x : Session)
      → lookup (hash token) s.by_hash ≡ some x
      → lookup (hash token) (complete_mfa hash token s).1.by_hash
        ≡ some (record x { mfa_satisfied = true })
  unfolding complete_mfa complete_at
  lookup-complete_mfa s token x e =
      rw (e, complete_at)
        (lookup-insert_self (hash token) (record x { mfa_satisfied = true }) s.by_hash)

  pub validate-lookup :
      (s : SessionStore) (swept now : ℕ) (token : String)
      → IsMap s.by_hash
      → (validate hash swept now token s).0
        ≡ accept now (kept swept (lookup (hash token) s.by_hash))
  unfolding validate gc
  validate-lookup s swept now token m =
      ap (accept now) (lookup-retain (λ y. ltb swept y.expires_at) (hash token) s.by_hash m)
