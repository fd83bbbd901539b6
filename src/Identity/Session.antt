-- ===== src/Identity/Session.antt =====
-- crates/secgit-identity/src/session.rs: the session table, keyed by the hash of the token.
-- The clock and the random token are arguments; `validate` reads the clock twice. A `u64` sum that
-- saturates is cut at its largest value.
pub mod Validity
pub mod Factor
pub mod Revocation
pub mod Tests
use secgit.Prelude.{
  ℕ, ◌+◌, ◌-◌, ◌^◌, min, String, Bool, true, false, not, ◌||◌, Option, none, some, [], length,
  str_eq, ltb, leb, ◌==◌, if◌then◌else◌,
}
use secgit.Prelude.Maps.{Map, lookup, insert, remove, retain}
use secgit.Identity.Model.{IdentityError, auth_failed, crypto, Result, ok, err}

abbrev pub u64_max : ℕ
u64_max = 2 ^ 64 - 1

unfoldable pub saturating_add : ℕ → ℕ → ℕ
saturating_add a b = min (a + b) u64_max

pub record Session : Type 0 where
  pub user_id : String
  pub expires_at : ℕ
  pub mfa_satisfied : Bool

pub record SessionStore : Type 0 where
  pub ttl_secs : ℕ
  pub by_hash : Map Session

abbrev pub new_store : ℕ → SessionStore
new_store ttl_secs = record { ttl_secs = ttl_secs; by_hash = [] }

gc : ℕ → SessionStore → SessionStore
gc t s = record s { by_hash = retain (λ x. ltb t x.expires_at) s.by_hash }

pub accept : ℕ → Option Session → Option Session
accept now none = none
accept now (some s) = if leb s.expires_at now || not s.mfa_satisfied then none else some s

module _ (hash : String → String) where
  -- `drawn` is the hexadecimal token, `none` if the generator fails.
  pub create : ℕ → Option String → String → Bool → SessionStore → Result String × SessionStore
  unfolding saturating_add
  create now none user_id mfa_satisfied s = (err crypto, s)
  create now (some token) user_id mfa_satisfied s = (
    ok token,
    record s {
      by_hash =
          insert (hash token)
            (record {
              user_id = user_id;
              expires_at = saturating_add now s.ttl_secs;
              mfa_satisfied = mfa_satisfied;
            })
            s.by_hash;
    },
  )

  pub validate : ℕ → ℕ → String → SessionStore → Option Session × SessionStore
  unfolding gc accept
  validate swept now token s =
      let s' = gc swept s in (accept now (lookup (hash token) s'.by_hash), s')

  complete_at : String → Option Session → SessionStore → Result (Unit {0}) × SessionStore
  complete_at token none s = (err auth_failed, s)
  complete_at token (some x) s = (
    ok tt,
    record s { by_hash = insert (hash token) (record x { mfa_satisfied = true }) s.by_hash },
  )

  pub complete_mfa : String → SessionStore → Result (Unit {0}) × SessionStore
  unfolding complete_at
  complete_mfa token s = complete_at token (lookup (hash token) s.by_hash) s

  pub revoke : String → SessionStore → SessionStore
  revoke token s = record s { by_hash = remove (hash token) s.by_hash }

pub revoke_all_for : String → SessionStore → SessionStore
revoke_all_for user_id s = record s {
  by_hash = retain (λ x. not (str_eq x.user_id user_id)) s.by_hash;
}

pub size : SessionStore → ℕ
size s = length s.by_hash
