-- ===== src/Server/RateLimiter/Bounds.antt =====
-- ratelimit.rs: the table of the rate limiter stays within its bound.
use secgit.Prelude.{
  ℕ, ◌-◌, ◌≤◌, ◌≡◌, refl, max, Bool, true, false, not, ◌&&◌, String, List, [], ◌∷◌, length, leb,
  ltb, arith, if◌then◌else◌, Bool-cases, inl, inr,
}
use secgit.Prelude.Maps.{length-retain-le, length-insert, contains_key, insert}
use secgit.Server.RateLimiter.{
  Float, Bucket, RateLimiter, new_limiter, evict, swept, is_full, with_room, no_room, spend,
  check_room, check, after_checks,
}

module _ {F64 : Type 0} (float : Float F64) where
  -- The table is within a bound, which is the limiter's own.
  IsBounded : ℕ → RateLimiter F64 → Type 0
  IsBounded bound l = (l.max_keys ≡ bound) × (length l.buckets ≤ bound)

  if-IsBounded :
      (bound : ℕ) (b : Bool) (l l' : RateLimiter F64)
      → IsBounded bound l
      → IsBounded bound l'
      → IsBounded bound (if b then l else l')
  if-IsBounded bound true l l' h h' = h
  if-IsBounded bound false l l' h h' = h'

  swept-IsBounded :
      (bound now : ℕ) (l : RateLimiter F64)
      → IsBounded bound l
      → IsBounded bound (swept float now l)
  unfolding swept evict IsBounded
  swept-IsBounded bound now l h =
      if-IsBounded bound (leb l.idle_evict (now - l.last_sweep))
        (record l { buckets = evict float now l.idle_evict l.buckets; last_sweep = now }) l
        (h.0, omega (arith, h.1, length-retain-le (λ b. ltb (now - b.last) l.idle_evict) l.buckets))
        h

  with_room-IsBounded :
      (bound now : ℕ) (key : String) (l : RateLimiter F64)
      → IsBounded bound l
      → IsBounded bound (with_room float key now l)
  unfolding with_room evict IsBounded
  with_room-IsBounded bound now key l h =
      if-IsBounded bound (not (contains_key key l.buckets) && is_full float l)
        (record l { buckets = evict float now l.idle_evict l.buckets }) l
        (h.0, omega (arith, h.1, length-retain-le (λ b. ltb (now - b.last) l.idle_evict) l.buckets))
        h

  check_room-IsBounded :
      (bound now : ℕ) (key : String) (l : RateLimiter F64)
      → IsBounded bound l
      → IsBounded bound (check_room float key now l).1
  unfolding check_room no_room is_full spend IsBounded
  check_room-IsBounded bound now key l h =
      elim (Bool-cases (not (contains_key key l.buckets) && is_full float l)) [
        | inl full ↦ rw full h
        | inr room ↦ rw room (h.0, grows _ room)
      ]
    where
      grows :
          (b : Bucket F64)
          → (not (contains_key key l.buckets) && leb l.max_keys (length l.buckets)) ≡ false
          → length (insert key b l.buckets) ≤ bound
      grows b room = ground (arith, length-insert key b l.buckets, h.0, h.1)

  check-IsBounded :
      (bound now : ℕ) (key : String) (l : RateLimiter F64)
      → IsBounded bound l
      → IsBounded bound (check float key now l).1
  unfolding check
  check-IsBounded bound now key l h =
      check_room-IsBounded bound now key _
        (with_room-IsBounded bound now key _ (swept-IsBounded bound now l h))

  after_checks-IsBounded :
      (bound : ℕ) (calls : List (String × ℕ)) (l : RateLimiter F64)
      → IsBounded bound l
      → IsBounded bound (after_checks float calls l)
  unfolding after_checks
  after_checks-IsBounded bound [] l h = h
  after_checks-IsBounded bound ((key, now) ∷ calls) l h =
      after_checks-IsBounded bound calls (check float key now l).1
        (check-IsBounded bound now key l h)

  -- After any calls on a new limiter, the table has at most as many buckets as it was made for, or one
  -- where it was made for none.
  pub keys_bounded :
      (capacity refill : F64) (max_keys idle_evict start : ℕ) (calls : List (String × ℕ))
      → length
          (after_checks float calls
            (new_limiter float capacity refill max_keys idle_evict start)).buckets
        ≤ max max_keys 1
  unfolding IsBounded new_limiter
  keys_bounded capacity refill max_keys idle_evict start calls =
      (after_checks-IsBounded (max max_keys 1) calls
        (new_limiter float capacity refill max_keys idle_evict start) (refl, omega arith)).1
