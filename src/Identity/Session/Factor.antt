-- ===== src/Identity/Session/Factor.antt =====
-- session.rs: a session without its second factor, over the calls until the factor is completed.
use secgit.Prelude.{String, ◌≡◌, ◌≢◌, false, none, some}
use secgit.Prelude.Maps.{lookup}
use secgit.Identity.Session.{Session, SessionStore}
use secgit.Identity.Session.Validity.{Call, creates, completes}

module _ (hash : String → String) where
  -- The session under a key, if there is one, waits for its second factor.
  abbrev pub Waits : String → SessionStore → Type 0
  Waits k s = (x : Session) → lookup k s.by_hash ≡ some x → x.mfa_satisfied ≡ false

  -- The call neither completes the factor of the token nor draws the token anew.
  abbrev pub Leaves : String → Call hash → Type 0
  Leaves token (creates now none u mfa) = Unit
  Leaves token (creates now (some drawn) u mfa) = hash drawn ≢ hash token
  Leaves token (completes other) = hash other ≢ hash token
  Leaves token _ = Unit
