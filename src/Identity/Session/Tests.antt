-- ===== src/Identity/Session/Tests.antt =====
-- Runs of the model of session.rs, and the theorems about it at concrete inputs.
use secgit.Prelude.{
  String, ◌≡◌, ◌≢◌, ◌<◌, ◌↔◌, refl, some, none, true, [], ◌∷◌, str_eq, if◌then◌else◌,
}
use secgit.Prelude.Maps.{lookup, contains_key, retain, remove}
use secgit.Identity.Session.{
  Session, SessionStore, saturating_add, validate, revoke, revoke_all_for,
}
use secgit.Identity.Session.Validity.{revokes, run, session, validate_iff}
use secgit.Identity.Session.Revocation.{validate-revoke, revoke_all_for_lasts}

-- Hashes that are the tokens themselves.
abbrev plain : String → String
plain token = token

abbrev store : SessionStore
store = record { ttl_secs = 600; by_hash = ("t1", session plain 100 600 "bob" true) ∷ [] }

validate_iff_example :
    ((validate plain 150 150 "t1" store).0 ≡ some (session plain 100 600 "bob" true)) ↔ (
      (lookup "t1" store.by_hash ≡ some (session plain 100 600 "bob" true))
      × (150 < saturating_add 100 600)
      × (150 < saturating_add 100 600)
      × (true ≡ true))
unfolding contains_key
validate_iff_example =
    validate_iff plain store 150 150 "t1" (session plain 100 600 "bob" true) (refl, tt)

validate-revoke-sample :
    (validate plain 150 150 "t1" (revoke plain "t1" store)).0
    ≡ (if str_eq "t1" "t1" then none else (validate plain 150 150 "t1" store).0)
unfolding contains_key
validate-revoke-sample = validate-revoke plain store 150 150 "t1" "t1" (refl, tt)

abbrev eve_session : Session
eve_session = session plain 100 600 "eve" true

abbrev two_users : SessionStore
two_users = record {
  ttl_secs = 600;
  by_hash = ("t1", session plain 100 600 "bob" true) ∷ ("t2", eve_session) ∷ [];
}

still_valid :
    (validate plain 150 150 "t2" (run plain (revokes "t3" ∷ []) (revoke_all_for "bob" two_users))).0
    ≡ some eve_session
unfolding validate lookup retain run remove
still_valid = refl

revoke_all_for_lasts_example : eve_session.user_id ≢ "bob"
unfolding contains_key
revoke_all_for_lasts_example =
    revoke_all_for_lasts plain "bob" (revokes "t3" ∷ []) two_users 150 150 "t2" eve_session
      (refl, (refl, tt)) (tt, tt) still_valid
