-- ===== src/Keybroker/Broker/Granted.antt =====
-- keybroker/src/lib.rs: what stands behind a release.
use secgit.Prelude.{
  ℕ, ◌+◌, ◌%◌, ◌^◌, ◌++◌, ◌≤◌, ◌≡◌, ◌≢◌, ◌⊎◌, inl, inr, refl, ap, sym, ◌∙◌, String, Option, none,
  some, List, [], ◌∷◌, Bytes,
}
use secgit.Prelude.Words.{le_bytes}
use secgit.Prelude.Maps.{IsMap}
use secgit.Crypto.Error
use secgit.Crypto.Aead.{Cipher}
use secgit.Crypto.Kem.{KemLibrary, RecipientPublic, from_bytes, seal_to}
use secgit.Attest.{Claims, Policy, bind}
use secgit.Attest
use secgit.Keybroker.Replay.{ReplayGuard, stale, replayed, check_and_record_at}
use secgit.Keybroker.Replay
use secgit.Keybroker.Replay.Retention.{
  Request, result, AllBy, after_check, after_checks, refused_while_retained,
}
use secgit.Keybroker.Broker.{
  Result, ok, err, ◌>>=◌, from_attest, from_crypto, from_replay, ReleaseRequest, ReleaseResponse,
  get_kek, LocalKeyBroker, kek_or, recipient_or, Moment, release_report_data, check_guard, seal_kek,
  after_verify, release,
}

pub chain_ok {ℓ κ} :
    {A : Type ℓ} {B : Type κ} (first : Result A) (next : A → Result B) {last : B}
    → (first >>= next) ≡ ok last
    → (x : A) × (first ≡ ok x) × (next x ≡ ok last)
chain_ok (ok x) next h = (x, refl, h)
chain_ok (err e) next h = cc

pub ok_same {ℓ} : {A : Type ℓ} {x y : A} → ok x ≡ ok y → x ≡ y
ok_same h = cc

pub from_attest_ok {ℓ} :
    {A : Type ℓ} (r : Attest.Result A) {a : A} → from_attest r ≡ ok a → r ≡ Attest.ok a
from_attest_ok (Attest.ok a) h = cc
from_attest_ok (Attest.err e) h = cc

pub from_crypto_ok {ℓ} :
    {A : Type ℓ} (r : Error.Result A) {a : A} → from_crypto r ≡ ok a → r ≡ Error.ok a
from_crypto_ok (Error.ok a) h = cc
from_crypto_ok (Error.err e) h = cc

from_replay_ok : (r : Replay.Result (Unit {0})) → from_replay r ≡ ok tt → r ≡ Replay.ok tt
from_replay_ok (Replay.ok u) h = refl
from_replay_ok (Replay.err stale) h = cc
from_replay_ok (Replay.err replayed) h = cc

module _ (sha512 : Bytes → Bytes) (hmac : Bytes → Bytes → Bytes) (cipher : Cipher)
    (lib : KemLibrary) (hex_encode : Bytes → String) where
  abbrev expected : ReleaseRequest → Bytes
  expected req =
      release_report_data sha512 hmac cipher lib hex_encode req.nonce req.timestamp
        req.runtime_pubkey

  abbrev step : Moment → ReleaseRequest → LocalKeyBroker → Result ReleaseResponse × LocalKeyBroker
  step = release sha512 hmac cipher lib hex_encode

  -- The guard's step for a request.
  abbrev pub request_at : Moment → ReleaseRequest → Request
  request_at m req = record {
    written = m.written;
    nonce = req.nonce;
    timestamp = req.timestamp;
    now = m.now;
  }

  -- What the broker has found, and done, when it answers a request.
  pub record IsGranted (m : Moment) (req : ReleaseRequest) (b : LocalKeyBroker)
      (resp : ReleaseResponse) (b' : LocalKeyBroker) : Type 0 where
    pub claims : Claims
    pub verified :
        b.verifier req.evidence
          (sha512 ((req.nonce ++ le_bytes 8 (req.timestamp % 2 ^ 64)) ++ req.runtime_pubkey))
          b.policy
        ≡ Attest.ok claims
    pub guarded :
        (g : ReplayGuard)
        → b.replay_guard ≡ some g
        → (result hex_encode (request_at m req) g ≡ Replay.ok tt)
          × (b'.replay_guard ≡ some (after_check hex_encode (request_at m req) g))
    pub kek : Bytes
    pub known : get_kek req.resource_id b.keks ≡ some kek
    pub recipient : RecipientPublic
    pub public_key : from_bytes req.runtime_pubkey ≡ Error.ok recipient
    pub sealed :
        seal_to hmac cipher lib m.drawn_seed m.drawn_nonce recipient kek ≡ Error.ok resp.wrapped

  check_guard-ok :
      (m : Moment) (req : ReleaseRequest) (o after : Option ReplayGuard) (g : ReplayGuard)
      → (check_guard sha512 hmac cipher lib hex_encode m req o).0 ≡ ok tt
      → (check_guard sha512 hmac cipher lib hex_encode m req o).1 ≡ after
      → o ≡ some g
      → (result hex_encode (request_at m req) g ≡ Replay.ok tt)
        × (after ≡ some (after_check hex_encode (request_at m req) g))
  unfolding check_guard after_check
  check_guard-ok m req none after g h e s = cc
  check_guard-ok m req (some x) after g h e s =
      let same : x ≡ g = cc in rw (← same) (from_replay_ok _ h, sym e)

  kek_or-ok : (o : Option Bytes) (id : String) {kek : Bytes} → kek_or o id ≡ ok kek → o ≡ some kek
  unfolding kek_or
  kek_or-ok none id h = cc
  kek_or-ok (some k) id h = cc

  recipient_or-ok :
      (r : Error.Result RecipientPublic) {p : RecipientPublic}
      → recipient_or r ≡ ok p
      → r ≡ Error.ok p
  unfolding recipient_or
  recipient_or-ok (Error.ok p) h = cc
  recipient_or-ok (Error.err e) h = cc

  after_verify-IsGranted :
      (m : Moment) (req : ReleaseRequest) (b b' : LocalKeyBroker) (resp : ReleaseResponse)
      (answer : Attest.Result Claims)
      → b.verifier req.evidence (expected req) b.policy ≡ answer
      → after_verify sha512 hmac cipher lib hex_encode m req b (from_attest answer) ≡ (ok resp, b')
      → IsGranted m req b resp b'
  unfolding after_verify seal_kek release_report_data bind
  after_verify-IsGranted m req b b' resp (Attest.err e) a h = cc
  after_verify-IsGranted m req b b' resp (Attest.ok claims) a h =
      let guard = check_guard sha512 hmac cipher lib hex_encode m req b.replay_guard in
      let (u, checked, h1) = chain_ok guard.0 _ (ap (λ r. r.0) h) in
      let (kek, known, h2) =
        chain_ok (kek_or (get_kek req.resource_id b.keks) req.resource_id) _ h1 in
      let (recipient, parsed, h3) = chain_ok (recipient_or (from_bytes req.runtime_pubkey)) _ h2 in
      let (wrapped, sealed, h4) =
        chain_ok (from_crypto (seal_to hmac cipher lib m.drawn_seed m.drawn_nonce recipient kek)) _
          h3 in
      let resp_is : wrapped ≡ resp.wrapped = ap (λ r. r.wrapped) (ok_same h4) in
      record {
        claims = claims;
        verified = a;
        guarded = λ g e.
            check_guard-ok m req b.replay_guard b'.replay_guard g checked
              (ap (λ r. r.1.replay_guard) h) e;
        kek = kek;
        known = kek_or-ok _ req.resource_id known;
        recipient = recipient;
        public_key = recipient_or-ok _ parsed;
        sealed = from_crypto_ok _ sealed ∙ ap (λ w. Error.ok w) resp_is;
      }

  -- A released response was sealed, to the public key in the request, from the KEK held for the
  -- resource, for evidence that the verifier accepted under the broker's policy with the SHA-512 of
  -- the request's own nonce, its time as eight bytes and its key, and where there is a guard, it
  -- accepted and recorded the request.
  pub release-IsGranted :
      (m : Moment) (req : ReleaseRequest) (b b' : LocalKeyBroker) (resp : ReleaseResponse)
      → release sha512 hmac cipher lib hex_encode m req b ≡ (ok resp, b')
      → IsGranted m req b resp b'
  unfolding release
  release-IsGranted m req b b' resp h =
      after_verify-IsGranted m req b b' resp (b.verifier req.evidence (expected req) b.policy) refl
        h

  -- A request either leaves the guard alone or is one check of it.
  release-guard :
      (m : Moment) (req : ReleaseRequest) (b : LocalKeyBroker) (g : ReplayGuard)
      → b.replay_guard ≡ some g
      → ((step m req b).1.replay_guard ≡ some g)
        ⊎ ((step m req b).1.replay_guard ≡ some (after_check hex_encode (request_at m req) g))
  unfolding release after_verify check_guard after_check
  release-guard m req b g held = go (from_attest (b.verifier req.evidence (expected req) b.policy))
    where
      go :
          (answer : Result Claims)
          → ((after_verify sha512 hmac cipher lib hex_encode m req b answer).1.replay_guard
              ≡ some g)
            ⊎ ((after_verify sha512 hmac cipher lib hex_encode m req b answer).1.replay_guard
                ≡ some (after_check hex_encode (request_at m req) g))
      go (err e) = inl held
      go (ok claims) = inr (rw held refl)

  -- The broker after some requests, each with its moment.
  unfoldable pub after_releases : List (Moment × ReleaseRequest) → LocalKeyBroker → LocalKeyBroker
  unfolding release
  after_releases [] b = b
  after_releases ((m, req) ∷ calls) b = after_releases calls (step m req b).1

  -- Every request comes before a time has passed.
  abbrev pub RequestsBy : ℕ → List (Moment × ReleaseRequest) → Type 0
  RequestsBy last [] = Unit
  RequestsBy last ((m, req) ∷ calls) = (m.now ≤ last) × RequestsBy last calls

  -- What some requests do to the guard is a sequence of checks.
  after_releases-checks :
      (last : ℕ) (calls : List (Moment × ReleaseRequest)) (b : LocalKeyBroker) (g : ReplayGuard)
      → RequestsBy last calls
      → b.replay_guard ≡ some g
      → (rs : List Request) × AllBy hex_encode last rs
        × ((after_releases calls b).replay_guard ≡ some (after_checks hex_encode rs g))
  unfolding after_releases after_checks
  after_releases-checks last [] b g by held = ([], tt, held)
  after_releases-checks last ((m, req) ∷ calls) b g (now, by) held =
      elim (release-guard m req b g held) [
        | inl same ↦ after_releases-checks last calls (step m req b).1 g by same
        | inr checked ↦
            let (rs, within, later) =
              after_releases-checks last calls (step m req b).1
                (after_check hex_encode (request_at m req) g) by checked in
            (request_at m req ∷ rs, (now, within), later)
      ]

  -- With a guard, a request that reuses the nonce of a released one is not released, whatever else
  -- it holds and whatever requests come in between, until the retention horizon has passed.
  pub release_once :
      (m m' : Moment) (req req' : ReleaseRequest) (calls : List (Moment × ReleaseRequest))
      (b b' : LocalKeyBroker) (g : ReplayGuard) (resp resp' : ReleaseResponse)
      → b.replay_guard ≡ some g
      → IsMap g.seen
      → release sha512 hmac cipher lib hex_encode m req b ≡ (ok resp, b')
      → RequestsBy (m.now + g.ttl_secs) calls
      → req'.nonce ≡ req.nonce
      → m'.now ≤ m.now + g.ttl_secs
      → (release sha512 hmac cipher lib hex_encode m' req' (after_releases calls b')).0 ≢ ok resp'
  unfolding after_checks after_check
  release_once m m' req req' calls b b' g resp resp' held map h by same now h' =
      let first = release-IsGranted m req b b' resp h in
      let (accepted, recorded) = first.guarded g held in
      let (rs, within, kept) =
        after_releases-checks (m.now + g.ttl_secs) calls b'
          (after_check hex_encode (request_at m req) g) by recorded in
      let between = after_releases calls b' in
      let second =
        release-IsGranted m' req' between (step m' req' between).1 resp'
          (ap (λ r. (r, (step m' req' between).1)) h') in
      let (again, after) = second.guarded _ kept in
      refused_while_retained hex_encode g (request_at m req) rs (request_at m' req') map accepted
        within (ap hex_encode same) now again
