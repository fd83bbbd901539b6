-- ===== src/Keybroker/Replay/Window.antt =====
-- replay.rs: for how long an accepted nonce is refused, and what restarts the broker keeps.
use secgit.Prelude.{
  ℕ, ◌+◌, ◌-◌, ◌≤◌, ◌<◌, ◌^◌, String, ◌≡◌, refl, ◌∙◌, ◌↔◌, Bool, true, false, ◌||◌, Option, none,
  some, Bytes, arith, ltb, leb, if◌then◌else◌, min,
}
use secgit.Prelude.Maps.{
  Map, lookup, contains_key, retain, IsMap, lookup-retain, contains_key-lookup,
}
use secgit.Keybroker.Replay.{
  stale, replayed, Result, ok, err, ReplayGuard, u64_max, record_nonce, check_and_record_at,
}

module _ (hex_encode : Bytes → String) where
  abbrev pub check : Bool → Bytes → ℕ → ℕ → ReplayGuard → Result (Unit {0}) × ReplayGuard
  check = check_and_record_at hex_encode

  -- The result of a check, by what the table holds for the nonce.
  abbrev pub outcome : ℕ → ℕ → ℕ → ℕ → Option ℕ → Result (Unit {0})
  outcome ttl skew timestamp now o =
      if ltb timestamp (now - ttl) || ltb (min (now + skew) u64_max) timestamp
      then err stale
      else elim o as (λ _. Result (Unit {0})) [
        | none ↦ ok tt
        | some at ↦ if leb (now - ttl) at then err replayed else ok tt
      ]

  contains-retain :
      (p : ℕ → Bool) (k : String) (m : Map ℕ)
      → IsMap m
      → contains_key k (retain p m)
        ≡ elim (lookup k m) as (λ _. Bool) [ none ↦ false | some at ↦ p at ]
  contains-retain p k m h =
      contains_key-lookup k (retain p m) ∙ rw (lookup-retain p k m h) (go (lookup k m))
    where
      go :
          (o : Option ℕ)
          → elim (elim o as (λ _. Option ℕ) [ none ↦ none | some v ↦ if p v then some v else none ])
              as (λ _. Bool) [ none ↦ false | some _ ↦ true ]
            ≡ elim o as (λ _. Bool) [ none ↦ false | some at ↦ p at ]
      go none = refl
      go (some v) = ground arith

  pub check-outcome :
      (g : ReplayGuard) (written : Bool) (nonce : Bytes) (timestamp now : ℕ)
      → IsMap g.seen
      → (check written nonce timestamp now g).0
        ≡ outcome g.ttl_secs g.future_skew_secs timestamp now (lookup (hex_encode nonce) g.seen)
  unfolding check_and_record_at record_nonce
  check-outcome g written nonce timestamp now m =
      let e = contains-retain (λ at. leb (now - g.ttl_secs) at) (hex_encode nonce) g.seen m in
      go (lookup (hex_encode nonce) g.seen) e
    where
      go :
          (o : Option ℕ)
          → contains_key (hex_encode nonce) (retain (λ at. leb (now - g.ttl_secs) at) g.seen)
            ≡ elim o as (λ _. Bool) [ none ↦ false | some at ↦ leb (now - g.ttl_secs) at ]
          → (check written nonce timestamp now g).0
            ≡ outcome g.ttl_secs g.future_skew_secs timestamp now o
      go none e = ground arith
      go (some at) e = ground arith

  -- A request is accepted exactly when its time lies within the window and its nonce is not among
  -- those recorded within the retention horizon.
  pub check_iff :
      (g : ReplayGuard) (written : Bool) (nonce : Bytes) (timestamp now : ℕ)
      → IsMap g.seen
      → now + g.future_skew_secs < 2 ^ 64
      → ((check written nonce timestamp now g).0 ≡ ok tt) ↔ (
          (now - g.ttl_secs ≤ timestamp)
          × (timestamp ≤ now + g.future_skew_secs)
          × ((at : ℕ) → lookup (hex_encode nonce) g.seen ≡ some at → at + g.ttl_secs < now))
  check_iff g written nonce timestamp now m fits =
      rw (check-outcome g written nonce timestamp now m) (go (lookup (hex_encode nonce) g.seen))
    where
      go :
          (o : Option ℕ)
          → (outcome g.ttl_secs g.future_skew_secs timestamp now o ≡ ok tt) ↔ (
              (now - g.ttl_secs ≤ timestamp)
              × (timestamp ≤ now + g.future_skew_secs)
              × ((at : ℕ) → o ≡ some at → at + g.ttl_secs < now))
      go none = (λ h. (ground arith, ground arith, λ at e. cc), λ h. ground arith)
      go (some a) =
          (λ h. (ground arith, ground arith, λ at e. ground arith), λ h. ground (arith, h.2 a refl))
