-- ===== src/Keybroker/Replay.antt =====
-- crates/secgit-keybroker/src/replay.rs: the guard against stale and replayed release requests.
-- The file holds what was last persisted; the clock and whether the write succeeds are arguments. A
-- `u64` difference that saturates is the subtraction of natural numbers.
pub mod Window
pub mod Retention
use secgit.Prelude.{
  ℕ, ◌+◌, ◌-◌, ◌^◌, min, String, Bool, true, false, ◌||◌, Option, none, some, [], ltb, leb,
  if◌then◌else◌, Bytes,
}
use secgit.Prelude.Maps.{Map, lookup, contains_key, insert, retain}

pub data ReplayError : Type 0 where
  stale replayed : ReplayError

pub data Result {ℓ} (A : Type ℓ) : Type ℓ where
  ok : A → Result A
  err : ReplayError → Result A

pub record ReplayGuard : Type 0 where
  pub ttl_secs : ℕ
  pub future_skew_secs : ℕ
  pub seen : Map ℕ
  pub file : Map ℕ

abbrev pub default_future_skew : ℕ
default_future_skew = 60

or_empty : Option (Map ℕ) → Map ℕ
or_empty none = []
or_empty (some seen) = seen

-- What the file holds is `none` where it is missing or does not parse.
unfoldable pub open_guard : Option (Map ℕ) → ℕ → ReplayGuard
unfolding or_empty
open_guard file ttl_secs = record {
  ttl_secs = ttl_secs;
  future_skew_secs = default_future_skew;
  seen = or_empty file;
  file = or_empty file;
}

unfoldable pub with_future_skew : ReplayGuard → ℕ → ReplayGuard
with_future_skew g skew_secs = record g { future_skew_secs = skew_secs }

-- A temporary file is written and renamed; where that fails, the old file stays.
persist : Bool → ReplayGuard → ReplayGuard
persist written g = if written then record g { file = g.seen } else g

abbrev pub u64_max : ℕ
u64_max = 2 ^ 64 - 1

-- `hex_encode` names a nonce in the table.
module _ (hex_encode : Bytes → String) where
  record_nonce : Bool → String → ℕ → ReplayGuard → Result (Unit {0}) × ReplayGuard
  unfolding persist
  record_nonce written key now g =
      if contains_key key g.seen
      then (err replayed, g)
      else (ok tt, persist written (record g { seen = insert key now g.seen }))

  unfoldable pub check_and_record_at :
      Bool → Bytes → ℕ → ℕ → ReplayGuard → Result (Unit {0}) × ReplayGuard
  unfolding record_nonce
  check_and_record_at written nonce timestamp now g =
      let floor = now - g.ttl_secs in
      if ltb timestamp floor || ltb (min (now + g.future_skew_secs) u64_max) timestamp
      then (err stale, g)
      else record_nonce written (hex_encode nonce) now
          (record g { seen = retain (λ at. leb floor at) g.seen })
