-- ===== src/Server/RateLimiter.antt =====
-- bins/secgit-server/src/ratelimit.rs: the rate limiter, a bucket of tokens per key.
-- Instants are in nanoseconds, and each call is told its own. The arithmetic of f64 is an argument.
pub mod Bounds
pub mod Tests
use secgit.Prelude.{
  ℕ, ◌+◌, ◌-◌, max, Bool, true, false, not, ◌&&◌, Option, none, some, String, List, [], ◌∷◌, length,
  leb, ltb, if◌then◌else◌,
}
use secgit.Prelude.Maps.{Map, lookup, contains_key, insert, retain}

-- The arithmetic that the buckets use.
pub record Float (F64 : Type 0) : Type 0 where
  pub plus : F64 → F64 → F64
  pub minus : F64 → F64 → F64
  pub times : F64 → F64 → F64
  pub smaller : F64 → F64 → F64
  pub larger : F64 → F64 → F64
  pub at_least : F64 → F64 → Bool
  pub one : F64
  pub least_refill : F64
  pub as_secs : ℕ → F64

pub record Bucket (F64 : Type 0) : Type 0 where
  pub tokens : F64
  pub last : ℕ

pub record RateLimiter (F64 : Type 0) : Type 0 where
  pub capacity : F64
  pub refill : F64
  pub max_keys : ℕ
  pub idle_evict : ℕ
  pub buckets : Map (Bucket F64)
  pub last_sweep : ℕ

module _ {F64 : Type 0} (float : Float F64) where
  open float use {plus, minus, times, smaller, larger, at_least, one, least_refill, as_secs}

  unfoldable pub new_limiter : F64 → F64 → ℕ → ℕ → ℕ → RateLimiter F64
  new_limiter capacity refill max_keys idle_evict now = record {
    capacity = larger capacity one;
    refill = larger refill least_refill;
    max_keys = max max_keys 1;
    idle_evict = idle_evict;
    buckets = [];
    last_sweep = now;
  }

  -- The buckets that were used less than the idle time ago.
  evict : ℕ → ℕ → Map (Bucket F64) → Map (Bucket F64)
  evict now idle buckets = retain (λ b. ltb (now - b.last) idle) buckets

  swept : ℕ → RateLimiter F64 → RateLimiter F64
  unfolding evict
  swept now l =
      if leb l.idle_evict (now - l.last_sweep)
      then record l { buckets = evict now l.idle_evict l.buckets; last_sweep = now }
      else l

  is_full : RateLimiter F64 → Bool
  is_full l = leb l.max_keys (length l.buckets)

  -- Room for a key: a full table gives up its idle buckets before a new one comes in.
  with_room : String → ℕ → RateLimiter F64 → RateLimiter F64
  unfolding evict is_full
  with_room key now l =
      if not (contains_key key l.buckets) && is_full l
      then record l { buckets = evict now l.idle_evict l.buckets }
      else l

  -- No room was found.
  no_room : String → RateLimiter F64 → Bool
  unfolding is_full
  no_room key l = not (contains_key key l.buckets) && is_full l

  or_new : F64 → ℕ → Option (Bucket F64) → Bucket F64
  or_new capacity now none = record { tokens = capacity; last = now }
  or_new capacity now (some b) = b

  refilled : RateLimiter F64 → ℕ → Bucket F64 → F64
  refilled l now b = smaller (plus b.tokens (times (as_secs (now - b.last)) l.refill)) l.capacity

  spend : String → ℕ → RateLimiter F64 → Bool × RateLimiter F64
  unfolding or_new refilled
  spend key now l =
      let tokens = refilled l now (or_new l.capacity now (lookup key l.buckets)) in
      let left = if at_least tokens one then minus tokens one else tokens in
      (
        at_least tokens one,
        record l { buckets = insert key (record { tokens = left; last = now }) l.buckets },
      )

  check_room : String → ℕ → RateLimiter F64 → Bool × RateLimiter F64
  unfolding no_room spend
  check_room key now l = if no_room key l then (false, l) else spend key now l

  pub check : String → ℕ → RateLimiter F64 → Bool × RateLimiter F64
  unfolding swept with_room check_room
  check key now l = check_room key now (with_room key now (swept now l))

  -- The limiter after some calls, each a key with its instant.
  pub after_checks : List (String × ℕ) → RateLimiter F64 → RateLimiter F64
  after_checks [] l = l
  after_checks ((key, now) ∷ calls) l = after_checks calls (check key now l).1
