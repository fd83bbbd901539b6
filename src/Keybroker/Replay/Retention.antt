-- ===== src/Keybroker/Replay/Retention.antt =====
-- replay.rs: how long a nonce stays refused, over any checks in between and over a restart.
use secgit.Prelude.{
  ℕ, ◌+◌, ◌-◌, ◌≤◌, ◌<◌, ◌^◌, String, ◌≡◌, ◌≢◌, refl, sym, ap, ◌∙◌, ◌↔◌, Bool, true, false, ◌||◌,
  some, List, [], ◌∷◌, Bytes, arith, ltb, leb, if◌then◌else◌, eq_iff, min, le→leb,
}
use secgit.Prelude.Maps.{
  Map, lookup, contains_key, insert, retain, IsMap, lookup-insert, lookup-insert_self,
  lookup-retain, contains_key, contains_key-lookup, retain-IsMap, insert-IsMap,
}
use secgit.Keybroker.Replay.{
  stale, Result, ok, err, ReplayGuard, persist, u64_max, record_nonce, check_and_record_at,
  open_guard, or_empty,
}
use secgit.Keybroker.Replay.Window.{outcome, check-outcome, check_iff}

-- One call of the guard: whether its write succeeds, the request, and the clock.
pub record Request : Type 0 where
  pub written : Bool
  pub nonce : Bytes
  pub timestamp : ℕ
  pub now : ℕ

module _ (hex_encode : Bytes → String) where
  unfoldable pub after_check : Request → ReplayGuard → ReplayGuard
  unfolding check_and_record_at
  after_check r g = (check_and_record_at hex_encode r.written r.nonce r.timestamp r.now g).1

  unfoldable pub after_checks : List Request → ReplayGuard → ReplayGuard
  unfolding after_check
  after_checks [] g = g
  after_checks (r ∷ rs) g = after_checks rs (after_check r g)

  -- The guard has recorded the nonce at a time or later.
  record Remembers (key : String) (since : ℕ) (g : ReplayGuard) : Type 0 where
    pub at : ℕ
    pub there : lookup key g.seen ≡ some at
    pub recent : since ≤ at
    pub keyed : IsMap g.seen

  seen-record_nonce :
      (written : Bool) (key : String) (now : ℕ) (g : ReplayGuard)
      → (record_nonce hex_encode written key now g).1.seen
        ≡ (if contains_key key g.seen then g.seen else insert key now g.seen)
  unfolding record_nonce persist
  seen-record_nonce written key now g = ground arith

  insert_other :
      (key other : String) (now at : ℕ) (m : Map ℕ)
      → lookup key m ≡ some at
      → lookup key (if contains_key other m then m else insert other now m) ≡ some at
  insert_other key other now at m e =
      ground (arith, eq_iff other key, contains_key-lookup other m, lookup-insert other key now m)

  insert_if-IsMap :
      (b : Bool) (key : String) (now : ℕ) (m : Map ℕ)
      → IsMap m
      → IsMap (if b then m else insert key now m)
  insert_if-IsMap true key now m k = k
  insert_if-IsMap false key now m k = insert-IsMap key now m k

  record_nonce-Remembers :
      (written : Bool) (other key : String) (now since : ℕ) (g : ReplayGuard)
      → Remembers key since g
      → Remembers key since (record_nonce hex_encode written other now g).1
  record_nonce-Remembers written other key now since g m = record {
    at = m.at;
    there =
        rw (seen-record_nonce written other now g) (insert_other key other now m.at g.seen m.there);
    recent = m.recent;
    keyed =
        rw (seen-record_nonce written other now g)
          (insert_if-IsMap (contains_key other g.seen) other now g.seen m.keyed);
  }

  choose-Remembers :
      (b : Bool) (key : String) (since : ℕ) (g : ReplayGuard)
      (late : Result (Unit {0}) × ReplayGuard)
      → Remembers key since g
      → Remembers key since late.1
      → Remembers key since (if b then (err stale, g) else late).1
  choose-Remembers true key since g late m l = m
  choose-Remembers false key since g late m l = l

  retain-Remembers :
      (key : String) (since floor : ℕ) (g : ReplayGuard)
      → floor ≤ since
      → Remembers key since g
      → Remembers key since (record g { seen = retain (λ at. leb floor at) g.seen })
  retain-Remembers key since floor g low m = record {
    at = m.at;
    there =
        lookup-retain (λ at. leb floor at) key g.seen m.keyed
        ∙ simp (m.there, le→leb floor m.at (omega (arith, low, m.recent)));
    recent = m.recent;
    keyed = retain-IsMap (λ at. leb floor at) g.seen m.keyed;
  }

  after_check-Remembers :
      (key : String) (since : ℕ) (r : Request) (g : ReplayGuard)
      → r.now ≤ since + g.ttl_secs
      → Remembers key since g
      → Remembers key since (after_check r g)
  unfolding after_check check_and_record_at
  after_check-Remembers key since r g early m =
      let late = record g { seen = retain (λ at. leb (r.now - g.ttl_secs) at) g.seen } in
      let low = retain-Remembers key since (r.now - g.ttl_secs) g (omega (arith, early)) m in
      choose-Remembers
        (ltb r.timestamp (r.now - g.ttl_secs)
          || ltb (min (r.now + g.future_skew_secs) u64_max) r.timestamp)
        key since g (record_nonce hex_encode r.written (hex_encode r.nonce) r.now late) m
        (record_nonce-Remembers r.written (hex_encode r.nonce) key r.now since late low)

  after_check_ttl : (r : Request) (g : ReplayGuard) → (after_check r g).ttl_secs ≡ g.ttl_secs
  unfolding after_check check_and_record_at record_nonce persist
  after_check_ttl r g = ground arith

  after_check_skew :
      (r : Request) (g : ReplayGuard) → (after_check r g).future_skew_secs ≡ g.future_skew_secs
  unfolding after_check check_and_record_at record_nonce persist
  after_check_skew r g = ground arith

  -- Every call is made while the record of that time is kept.
  abbrev pub AllBy : ℕ → List Request → Type 0
  AllBy last [] = Unit
  AllBy last (r ∷ rs) = (r.now ≤ last) × AllBy last rs

  after_checks-Remembers :
      (key : String) (since ttl : ℕ) (rs : List Request) (g : ReplayGuard)
      → g.ttl_secs ≡ ttl
      → AllBy (since + ttl) rs
      → Remembers key since g
      → Remembers key since (after_checks rs g) × ((after_checks rs g).ttl_secs ≡ ttl)
  unfolding after_checks
  after_checks-Remembers key since ttl [] g e by m = (m, e)
  after_checks-Remembers key since ttl (r ∷ rs) g e by m =
      after_checks-Remembers key since ttl rs (after_check r g) (after_check_ttl r g ∙ e) by.1
        (after_check-Remembers key since r g (omega (arith, by.0, e)) m)

  abbrev pub result : Request → ReplayGuard → Result (Unit {0})
  result r g = (check_and_record_at hex_encode r.written r.nonce r.timestamp r.now g).0

  accepted_table :
      (r : Request) (g : ReplayGuard)
      → result r g ≡ ok tt
      → (after_check r g).seen
        ≡ insert (hex_encode r.nonce) r.now (retain (λ at. leb (r.now - g.ttl_secs) at) g.seen)
  unfolding after_check check_and_record_at record_nonce persist
  accepted_table r g e = ground arith

  recorded :
      (r : Request) (g : ReplayGuard)
      → result r g ≡ ok tt
      → lookup (hex_encode r.nonce) (after_check r g).seen ≡ some r.now
  recorded r g e = rw (accepted_table r g e) (
      lookup-insert_self (hex_encode r.nonce) r.now
        (retain (λ at. leb (r.now - g.ttl_secs) at) g.seen))

  accepted-Remembers :
      (r : Request) (g : ReplayGuard)
      → IsMap g.seen
      → result r g ≡ ok tt
      → Remembers (hex_encode r.nonce) r.now (after_check r g)
  accepted-Remembers r g m e = record {
    at = r.now;
    there = recorded r g e;
    recent = omega arith;
    keyed = rw (accepted_table r g e) (
        insert-IsMap (hex_encode r.nonce) r.now (retain (λ at. leb (r.now - g.ttl_secs) at) g.seen)
          (retain-IsMap (λ at. leb (r.now - g.ttl_secs) at) g.seen m));
  }

  refuses :
      (key : String) (since : ℕ) (q : Request) (g : ReplayGuard)
      → Remembers key since g
      → hex_encode q.nonce ≡ key
      → q.now ≤ since + g.ttl_secs
      → result q g ≢ ok tt
  refuses key since q g m same early e =
      let o = check-outcome hex_encode g q.written q.nonce q.timestamp q.now m.keyed in
      not_ok (
        sym (
          o
          ∙ ap
              (λ k.
                outcome hex_encode g.ttl_secs g.future_skew_secs q.timestamp q.now
                  (lookup k g.seen))
              same
          ∙ ap (outcome hex_encode g.ttl_secs g.future_skew_secs q.timestamp q.now) m.there)
        ∙ e)
    where
      not_ok :
          outcome hex_encode g.ttl_secs g.future_skew_secs q.timestamp q.now (some m.at) ≢ ok tt
      not_ok h = ground (arith, m.recent, early)

  -- Once a request is accepted, no request with its nonce is accepted as long as the clock has not
  -- passed the retention horizon, whatever checks with whatever writes come in between.
  pub refused_while_retained :
      (g : ReplayGuard) (r : Request) (rs : List Request) (q : Request)
      → IsMap g.seen
      → result r g ≡ ok tt
      → AllBy (r.now + g.ttl_secs) rs
      → hex_encode q.nonce ≡ hex_encode r.nonce
      → q.now ≤ r.now + g.ttl_secs
      → result q (after_checks rs (after_check r g)) ≢ ok tt
  refused_while_retained g r rs q m e by same early =
      let kept =
        after_checks-Remembers (hex_encode r.nonce) r.now g.ttl_secs rs (after_check r g)
          (after_check_ttl r g) by (accepted-Remembers r g m e) in
      refuses (hex_encode r.nonce) r.now q (after_checks rs (after_check r g)) kept.0 same
        (omega (arith, early, kept.1))

  -- An accepted request, sent once more and with the same skew allowed, is accepted again exactly
  -- when the horizon has passed since and the time it states still lies within the window.
  pub accepted_again_iff :
      (g : ReplayGuard) (r q : Request)
      → IsMap g.seen
      → result r g ≡ ok tt
      → q.nonce ≡ r.nonce
      → q.timestamp ≡ r.timestamp
      → r.now ≤ q.now
      → q.now + g.future_skew_secs < 2 ^ 64
      → (result q (after_check r g) ≡ ok tt)
        ↔ ((r.now + g.ttl_secs < q.now) × (q.now ≤ q.timestamp + g.ttl_secs))
  accepted_again_iff g r q m e same_nonce same_time later fits = rw (known) (go bound)
    where
      ttl : ℕ
      ttl = g.ttl_secs

      skew : ℕ
      skew = g.future_skew_secs

      kept : Remembers (hex_encode r.nonce) r.now (after_check r g)
      kept = accepted-Remembers r g m e

      known :
          result q (after_check r g) ≡ outcome hex_encode ttl skew r.timestamp q.now (some r.now)
      known =
          check-outcome hex_encode (after_check r g) q.written q.nonce q.timestamp q.now kept.keyed
          ∙ simp (after_check_ttl r g, after_check_skew r g, same_nonce, same_time, recorded r g e)

      bound : r.timestamp ≤ r.now + skew
      bound =
          ((check_iff hex_encode g r.written r.nonce r.timestamp r.now m
              (omega (arith, later, fits))).0
            e).1

      go :
          r.timestamp ≤ r.now + skew
          → (outcome hex_encode ttl skew r.timestamp q.now (some r.now) ≡ ok tt)
            ↔ ((r.now + ttl < q.now) × (q.now ≤ q.timestamp + ttl))
      go b = (λ h. (ground arith, ground arith), λ h. ground arith)

  persisted :
      (r : Request) (g : ReplayGuard)
      → r.written ≡ true
      → result r g ≡ ok tt
      → (after_check r g).file ≡ (after_check r g).seen
  unfolding after_check check_and_record_at record_nonce persist
  persisted r g w e = ground arith

  -- Where the write succeeds, a broker restarted from the file right after accepting a request
  -- refuses its nonce until the retention horizon has passed, whatever checks come in between.
  pub refused_after_restart :
      (g : ReplayGuard) (r : Request) (rs : List Request) (q : Request)
      → IsMap g.seen
      → r.written ≡ true
      → result r g ≡ ok tt
      → AllBy (r.now + g.ttl_secs) rs
      → hex_encode q.nonce ≡ hex_encode r.nonce
      → q.now ≤ r.now + g.ttl_secs
      → result q (after_checks rs (open_guard (some (after_check r g).file) g.ttl_secs)) ≢ ok tt
  unfolding open_guard or_empty
  refused_after_restart g r rs q m w e by same early =
      let m' = accepted-Remembers r g m e in
      let again : Remembers (hex_encode r.nonce) r.now
          (open_guard (some (after_check r g).file) g.ttl_secs) =
        record {
          at = r.now;
          there = rw (persisted r g w e) (recorded r g e);
          recent = omega arith;
          keyed = rw (persisted r g w e) m'.keyed;
        } in
      let kept =
        after_checks-Remembers (hex_encode r.nonce) r.now g.ttl_secs rs
          (open_guard (some (after_check r g).file) g.ttl_secs) refl by again in
      refuses (hex_encode r.nonce) r.now q
        (after_checks rs (open_guard (some (after_check r g).file) g.ttl_secs)) kept.0 same
        (omega (arith, early, kept.1))
