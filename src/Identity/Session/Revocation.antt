-- ===== src/Identity/Session/Revocation.antt =====
-- session.rs: what revocation does, at once and over the calls that follow.
use secgit.Prelude.{
  ℕ, String, ◌≡◌, ◌≢◌, refl, sym, ◌∙◌, inl, inr, Bool, true, false, not, Option, none, some, [],
  ◌∷◌, List, All, str_eq, eq_iff, arith, ltb, if◌then◌else◌, Bool-cases,
}
use secgit.Prelude.Maps.{
  lookup, insert, retain, IsMap, lookup-insert, lookup-remove, lookup-retain, remove-IsMap,
}
use secgit.Identity.Session.{
  Session, SessionStore, gc, accept, create, validate, complete_at, complete_mfa, revoke,
  revoke_all_for,
}
use secgit.Identity.Session.Validity.{
  kept, Call, creates, validates, completes, revokes, revokes_all, step, run, step-IsMap, run-IsMap,
  validate_iff, session, validate-lookup,
}

module _ (hash : String → String) where
  -- After `revoke` the token is refused, and every token with another hash is treated as before.
  pub validate-revoke :
      (s : SessionStore) (swept now : ℕ) (token other : String)
      → IsMap s.by_hash
      → (validate hash swept now other (revoke hash token s)).0
        ≡ (if str_eq (hash token) (hash other) then none else (validate hash swept now other s).0)
  unfolding accept
  validate-revoke s swept now token other m =
      let m' : IsMap (revoke hash token s).by_hash =
        unfold revoke in remove-IsMap (hash token) s.by_hash m in
      let gone : lookup (hash other) (revoke hash token s).by_hash
          ≡ (if str_eq (hash token) (hash other) then none else lookup (hash other) s.by_hash) =
        unfold revoke in lookup-remove (hash token) (hash other) s.by_hash in
      rw
        (
          validate-lookup hash (revoke hash token s) swept now other m',
          validate-lookup hash s swept now other m,
          gone,
        )
        (go (str_eq (hash token) (hash other)))
    where
      go :
          (b : Bool)
          → accept now (kept swept (if b then none else lookup (hash other) s.by_hash))
            ≡ (if b then none else accept now (kept swept (lookup (hash other) s.by_hash)))
      go true = refl
      go false = refl

  -- No session of a user is in the table.
  abbrev pub NoneOf : String → SessionStore → Type 0
  NoneOf user_id s = (k : String) (x : Session) → lookup k s.by_hash ≡ some x → x.user_id ≢ user_id

  -- The call does not open a session for the user.
  abbrev pub Spares : String → Call hash → Type 0
  Spares user_id (creates now drawn u mfa) = u ≢ user_id
  Spares user_id _ = Unit

  insert-NoneOf :
      (user_id k : String) (y : Session) (s : SessionStore)
      → y.user_id ≢ user_id
      → NoneOf user_id s
      → NoneOf user_id (record s { by_hash = insert k y s.by_hash })
  insert-NoneOf user_id k y s ne h j x e = elim (Bool-cases (str_eq k j)) [
    | inl same ↦ let new : y ≡ x = cc (lookup-insert k j y s.by_hash, e, same) in rw (← new) ne
    | inr differ ↦ h j x (ground (arith, lookup-insert k j y s.by_hash, e, differ))
  ]

  retain-NoneOf :
      (user_id : String) (p : Session → Bool) (s : SessionStore)
      → IsMap s.by_hash
      → NoneOf user_id s
      → NoneOf user_id (record s { by_hash = retain p s.by_hash })
  retain-NoneOf user_id p s m h j x e =
      h j x (still (lookup j s.by_hash) (sym (lookup-retain p j s.by_hash m) ∙ e))
    where
      still :
          (o : Option Session)
          → elim o as (λ _. Option Session) [ none ↦ none | some v ↦ if p v then some v else none ]
            ≡ some x
          → o ≡ some x
      still none q = q
      still (some v) q = ground arith

  complete-NoneOf :
      (user_id token : String) (o : Option Session) (s : SessionStore)
      → lookup (hash token) s.by_hash ≡ o
      → NoneOf user_id s
      → NoneOf user_id (complete_at hash token o s).1
  unfolding complete_at
  complete-NoneOf user_id token none s e h = h
  complete-NoneOf user_id token (some y) s e h =
      insert-NoneOf user_id (hash token) (record y { mfa_satisfied = true }) s (h (hash token) y e)
        h

  step-NoneOf :
      (user_id : String) (c : Call hash) (s : SessionStore)
      → IsMap s.by_hash
      → Spares user_id c
      → NoneOf user_id s
      → NoneOf user_id (step hash c s)
  unfolding step create validate gc complete_mfa revoke revoke_all_for
  step-NoneOf user_id (creates now none u mfa) s m p h = h
  step-NoneOf user_id (creates now (some token) u mfa) s m p h =
      insert-NoneOf user_id (hash token) (session hash now s.ttl_secs u mfa) s p h
  step-NoneOf user_id (validates swept now token) s m p h =
      retain-NoneOf user_id (λ x. ltb swept x.expires_at) s m h
  step-NoneOf user_id (completes token) s m p h =
      complete-NoneOf user_id token (lookup (hash token) s.by_hash) s refl h
  step-NoneOf user_id (revokes token) s m p h = λ j x e.
      h j x (elim (Bool-cases (str_eq (hash token) j)) [
        | inl same ↦ absurd (cc (lookup-remove (hash token) j s.by_hash, e, same))
        | inr differ ↦ ground (arith, lookup-remove (hash token) j s.by_hash, e, differ)
      ])
  step-NoneOf user_id (revokes_all u) s m p h =
      retain-NoneOf user_id (λ x. not (str_eq x.user_id u)) s m h

  run-NoneOf :
      (user_id : String) (cs : List (Call hash)) (s : SessionStore)
      → IsMap s.by_hash
      → All (Spares user_id) cs
      → NoneOf user_id s
      → NoneOf user_id (run hash cs s)
  unfolding run
  run-NoneOf user_id [] s m p h = h
  run-NoneOf user_id (c ∷ cs) s m p h =
      run-NoneOf user_id cs (step hash c s) (step-IsMap hash c s m) p.1
        (step-NoneOf user_id c s m p.0 h)

  revoke_all-NoneOf :
      (user_id : String) (s : SessionStore)
      → IsMap s.by_hash
      → NoneOf user_id (revoke_all_for user_id s)
  unfolding revoke_all_for
  revoke_all-NoneOf user_id s m j x e same =
      gone (lookup j s.by_hash) (sym (lookup-retain _ j s.by_hash m) ∙ e)
    where
      gone :
          (o : Option Session)
          → elim o as (λ _. Option Session) [
            | none ↦ none
            | some v ↦ if not (str_eq v.user_id user_id) then some v else none
          ]
            ≡ some x
          → ⊥
      gone none q = cc
      gone (some v) q = ground (arith, eq_iff v.user_id user_id)

  -- After all sessions of a user are revoked, whatever calls follow that open no new one for that user,
  -- no token is accepted as that user's.
  pub revoke_all_for_lasts :
      (user_id : String) (cs : List (Call hash)) (s : SessionStore) (swept now : ℕ) (token : String)
      (x : Session)
      → IsMap s.by_hash
      → All (Spares user_id) cs
      → (validate hash swept now token (run hash cs (revoke_all_for user_id s))).0 ≡ some x
      → x.user_id ≢ user_id
  revoke_all_for_lasts user_id cs s swept now token x m spare valid =
      let s1 = revoke_all_for user_id s in
      let m1 : IsMap s1.by_hash = unfold step in step-IsMap hash (revokes_all user_id) s m in
      let none_of = run-NoneOf user_id cs s1 m1 spare (revoke_all-NoneOf user_id s m) in
      none_of (hash token) x
        ((validate_iff hash (run hash cs s1) swept now token x (run-IsMap hash cs s1 m1)).0 valid).0
