-- ===== src/Server/RateLimiter/Tests.antt =====
-- A run of the rate limiter on whole tokens, and its theorem at a concrete input.
use secgit.Prelude.{
  ℕ, ◌+◌, ◌-◌, ◌*◌, ◌/◌, ◌^◌, ◌≤◌, ◌≡◌, refl, min, max, true, false, [], ◌∷◌, length, leb,
}
use secgit.Server.RateLimiter.{
  Float, RateLimiter, new_limiter, check, after_checks, swept, evict, is_full, with_room, no_room,
  or_new, refilled, spend, check_room,
}
use secgit.Server.RateLimiter.Bounds.{keys_bounded}
use secgit.Prelude.Maps.{lookup, insert, contains_key, retain}

abbrev whole : Float ℕ
whole = record {
  plus = λ a b. a + b;
  minus = λ a b. a - b;
  times = λ a b. a * b;
  smaller = λ a b. min a b;
  larger = λ a b. max a b;
  at_least = λ a b. leb b a;
  one = 1;
  least_refill = 1;
  as_secs = λ n. n / 10 ^ 9;
}

abbrev limiter : RateLimiter ℕ
limiter = new_limiter whole 1 1 1 (10 ^ 10) 0

-- One token a second: the second request at once is refused, and a new key where the table is full.
refused : (check whole "a" 5 (check whole "a" 4 limiter).1).0 ≡ false
unfolding new_limiter check swept evict is_full with_room no_room or_new refilled spend check_room
    lookup insert contains_key retain
refused = refl

refused_new : (check whole "b" 5 (check whole "a" 4 limiter).1).0 ≡ false
unfolding new_limiter check swept evict is_full with_room no_room or_new refilled spend check_room
    lookup insert contains_key retain
refused_new = refl

allowed_later : (check whole "a" (2 * 10 ^ 9) (check whole "a" 4 limiter).1).0 ≡ true
unfolding new_limiter check swept evict is_full with_room no_room or_new refilled spend check_room
    lookup insert contains_key retain
allowed_later = refl

keys_bounded_example :
    length (after_checks whole (("a", 4) ∷ ("b", 5) ∷ ("c", 10 ^ 11) ∷ []) limiter).buckets
    ≤ max 1 1
keys_bounded_example =
    keys_bounded whole 1 1 1 (10 ^ 10) 0 (("a", 4) ∷ ("b", 5) ∷ ("c", 10 ^ 11) ∷ [])
