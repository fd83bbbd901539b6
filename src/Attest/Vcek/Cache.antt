-- ===== src/Attest/Vcek/Cache.antt =====
-- vcek.rs: the cache's directory, and the steps that run on it.
use secgit.Prelude.{ℕ, ◌-◌, ◌≡◌, refl, ap, sym, String, Option, none, some, Bytes}
use secgit.Prelude.Maps.{Map, lookup, insert}
use secgit.Attest.{io, Result, ok, err}

-- A file is its bytes and the time of its last write; `refused` says why a write fails. The clock
-- stands still for the length of a call.
pub record VcekCache : Type 0 where
  pub files : Map (Bytes × ℕ)
  pub now : ℕ
  pub refused : String → Option String

abbrev pub Step {ℓ} : Type ℓ → Type ℓ
Step A = VcekCache → Result A × VcekCache

abbrev pub after {ℓ κ} :
    {A : Type ℓ} {B : Type κ} → Result A → VcekCache → (A → Step B) → Result B × VcekCache
after (ok a) c next = next a c
after (err e) c next = (err e, c)

infixl 5 ◌>>=◌
abbrev pub ◌>>=◌ {ℓ κ} : {A : Type ℓ} {B : Type κ} → Step A → (A → Step B) → Step B
(step >>= next) c = after (step c).0 (step c).1 next

abbrev pub lift {ℓ} : {A : Type ℓ} → Result A → Step A
lift r c = (r, c)

bytes_of : Option (Bytes × ℕ) → Option Bytes
bytes_of none = none
bytes_of (some (bytes, at)) = some bytes

unfoldable pub get : String → VcekCache → Option Bytes
unfolding bytes_of
get key c = bytes_of (lookup key c.files)

aged : ℕ → Option (Bytes × ℕ) → Option (Bytes × ℕ)
aged now none = none
aged now (some (bytes, at)) = some (bytes, now - at)

unfoldable pub get_with_age : String → VcekCache → Option (Bytes × ℕ)
unfolding aged
get_with_age key c = aged c.now (lookup key c.files)

put_unless : Option String → String → Bytes → Step (Unit {0})
put_unless (some why) key bytes c = (err (io why), c)
put_unless none key bytes c = (ok tt, record c { files = insert key (bytes, c.now) c.files })

unfoldable pub put : String → Bytes → Step (Unit {0})
unfolding put_unless
put key bytes c = put_unless (c.refused key) key bytes c

-- A chain that succeeded had a first step that succeeded.
pub step_ok {ℓ κ} :
    {A : Type ℓ} {B : Type κ} (first : Step A) (next : A → Step B) (c : VcekCache) {last : B}
    {c' : VcekCache}
    → (first >>= next) c ≡ (ok last, c')
    → (x : A) × (mid : VcekCache) × (first c ≡ (ok x, mid)) × (next x mid ≡ (ok last, c'))
step_ok {A = A} first next c {last = last} {c' = c'} h = go (first c).0 refl h
  where
    go :
        (r : _)
        → (first c).0 ≡ r
        → after r (first c).1 next ≡ (ok last, c')
        → (x : A) × (mid : VcekCache) × (first c ≡ (ok x, mid)) × (next x mid ≡ (ok last, c'))
    go (ok a) e h = (a, (first c).1, ap (λ r. (r, (first c).1)) e, h)
    go (err e') e h = cc

pub lift_ok {ℓ} :
    {A : Type ℓ} (r : Result A) (c : VcekCache) {a : A} {c' : VcekCache}
    → lift r c ≡ (ok a, c')
    → r ≡ ok a
lift_ok r c h = cc

pub put-now :
    (key : String) (bytes : Bytes) (c c' : VcekCache)
    → put key bytes c ≡ (ok tt, c')
    → c'.now ≡ c.now
unfolding put put_unless
put-now key bytes c c' h = go (c.refused key) h
  where
    go : (o : Option String) → put_unless o key bytes c ≡ (ok tt, c') → c'.now ≡ c.now
    go none e = ap (λ r. r.1.now) (sym e)
    go (some why) e = cc
