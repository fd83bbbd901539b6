-- ===== src/Keybroker/Broker.antt =====
-- crates/secgit-keybroker/src/lib.rs: release of a KEK to an attested guest, and the guest's side.
-- SHA-512, HMAC-SHA384, the cipher and the KEM's libraries, hex and the verifier are parameters;
-- the clock, the random draws and whether the guard's write succeeds are arguments.
pub mod Granted
pub mod EndToEnd
pub mod Tests
use secgit.Prelude.{
  ℕ, ◌%◌, ◌^◌, ◌≡◌, String, Bool, Option, none, some, ◌++◌, Bytes, length, ◌==◌, if◌then◌else◌,
}
use secgit.Prelude.Maps.{Map, lookup, insert}
use secgit.Prelude.Words.{le_bytes}
use secgit.Crypto.Error.{CryptoError, backend}
use secgit.Crypto.Error
use secgit.Crypto.Aead.{Cipher, or_err}
use secgit.Crypto.Kem.{
  KemLibrary, RecipientPublic, RecipientKeypair, to_bytes, from_bytes, public, generate,
  open_wrapped, seal_to,
}
use secgit.Attest.{AttestError, ReportData, bind, Evidence, Claims, Policy, Attester, Verifier}
use secgit.Attest
use secgit.Keybroker.Replay.{ReplayGuard, stale, replayed, check_and_record_at}
use secgit.Keybroker.Replay

pub data BrokerError : Type 0 where
  attestation : AttestError → BrokerError
  crypto : CryptoError → BrokerError
  unknown_resource policy_denied not_configured malformed : String → BrokerError
  replay stale_evidence : BrokerError

pub data Result {ℓ} (A : Type ℓ) : Type ℓ where
  ok : A → Result A
  err : BrokerError → Result A

infixl 5 ◌>>=◌
abbrev pub ◌>>=◌ {ℓ κ} : {A : Type ℓ} {B : Type κ} → Result A → (A → Result B) → Result B
ok value >>= next = next value
err e >>= next = err e

abbrev pub from_attest {ℓ} : {A : Type ℓ} → Attest.Result A → Result A
from_attest (Attest.ok a) = ok a
from_attest (Attest.err e) = err (attestation e)

abbrev pub from_crypto {ℓ} : {A : Type ℓ} → Error.Result A → Result A
from_crypto (Error.ok a) = ok a
from_crypto (Error.err e) = err (crypto e)

abbrev pub from_replay : Replay.Result (Unit {0}) → Result (Unit {0})
from_replay (Replay.ok u) = ok u
from_replay (Replay.err stale) = err stale_evidence
from_replay (Replay.err replayed) = err replay

pub record ReleaseRequest : Type 0 where
  pub resource_id : String
  pub evidence : Evidence
  pub runtime_pubkey : Bytes
  pub nonce : Bytes
  pub timestamp : ℕ

pub record ReleaseResponse : Type 0 where
  pub wrapped : Bytes

pub record InMemoryKekProvider : Type 0 where
  pub keks : Map Bytes

pub insert_kek : String → Bytes → InMemoryKekProvider → InMemoryKekProvider
insert_kek resource_id kek p = record { keks = insert resource_id kek p.keks }

unfoldable pub get_kek : String → InMemoryKekProvider → Option Bytes
get_kek resource_id p = lookup resource_id p.keks

pub record LocalKeyBroker : Type 0 where
  pub verifier : Verifier
  pub policy : Policy
  pub keks : InMemoryKekProvider
  pub replay_guard : Option ReplayGuard

pub new_broker : Verifier → Policy → InMemoryKekProvider → LocalKeyBroker
new_broker verifier policy keks = record {
  verifier = verifier;
  policy = policy;
  keks = keks;
  replay_guard = none;
}

pub with_replay_guard : ReplayGuard → LocalKeyBroker → LocalKeyBroker
with_replay_guard guard b = record b { replay_guard = some guard }

kek_or : Option Bytes → String → Result Bytes
kek_or none resource_id = err (unknown_resource resource_id)
kek_or (some kek) resource_id = ok kek

recipient_or : Error.Result RecipientPublic → Result RecipientPublic
recipient_or (Error.ok p) = ok p
recipient_or (Error.err e) = err (malformed "bad runtime_pubkey")

-- What a call meets outside: the clock, whether the guard's file is written, and the draws.
pub record Moment : Type 0 where
  pub now : ℕ
  pub written : Bool
  pub drawn_seed : Option Bytes
  pub drawn_nonce : Option Bytes

module _ (sha512 : Bytes → Bytes) (hmac : Bytes → Bytes → Bytes) (cipher : Cipher)
    (lib : KemLibrary) (hex_encode : Bytes → String) where
  unfoldable pub release_report_data : Bytes → ℕ → Bytes → ReportData
  unfolding bind
  release_report_data nonce timestamp runtime_pubkey =
      bind sha512 (nonce ++ le_bytes 8 (timestamp % 2 ^ 64)) runtime_pubkey

  check_guard :
      Moment → ReleaseRequest → Option ReplayGuard → Result (Unit {0}) × Option ReplayGuard
  check_guard m req none = (ok tt, none)
  check_guard m req (some guard) =
      let (r, guard') =
        check_and_record_at hex_encode m.written req.nonce req.timestamp m.now guard in
      (from_replay r, some guard')

  seal_kek : Moment → ReleaseRequest → InMemoryKekProvider → Result ReleaseResponse
  unfolding kek_or recipient_or get_kek
  seal_kek m req keks = do
    kek ← kek_or (get_kek req.resource_id keks) req.resource_id
    recipient ← recipient_or (from_bytes req.runtime_pubkey)
    wrapped ← from_crypto (seal_to hmac cipher lib m.drawn_seed m.drawn_nonce recipient kek)
    ok (record { wrapped = wrapped })

  after_verify :
      Moment
      → ReleaseRequest
      → LocalKeyBroker
      → Result Claims
      → Result ReleaseResponse × LocalKeyBroker
  unfolding check_guard seal_kek
  after_verify m req b (err e) = (err e, b)
  after_verify m req b (ok claims) =
      let (checked, guard') = check_guard m req b.replay_guard in
      ((do u ← checked; seal_kek m req b.keks), record b { replay_guard = guard' })

  pub release : Moment → ReleaseRequest → LocalKeyBroker → Result ReleaseResponse × LocalKeyBroker
  unfolding after_verify
  release m req b =
      let expected = release_report_data req.nonce req.timestamp req.runtime_pubkey in
      after_verify m req b (from_attest (b.verifier req.evidence expected b.policy))

  -- What the guest draws before it asks.
  pub record Draws : Type 0 where
    pub seed : Option Bytes
    pub dk : Option Bytes
    pub nonce : Option Bytes
    pub timestamp : ℕ

  make_request : String → Attester → Draws → RecipientKeypair → Result ReleaseRequest
  unfolding or_err
  make_request resource_id attester drawn kp = do
    nonce ← from_crypto (or_err drawn.nonce backend)
    evidence ←
        from_attest (attester (release_report_data nonce drawn.timestamp (to_bytes (public kp))))
    ok (record {
      resource_id = resource_id;
      evidence = evidence;
      runtime_pubkey = to_bytes (public kp);
      nonce = nonce;
      timestamp = drawn.timestamp;
    })

  unwrap_kek : RecipientKeypair → Result ReleaseResponse → Result Bytes
  unwrap_kek kp answer = do
    resp ← answer
    kek_bytes ← from_crypto (open_wrapped hmac cipher lib kp resp.wrapped)
    if length kek_bytes == 32 then ok kek_bytes else err (malformed "released KEK wrong length")

  -- The trait `KeyRelease` is a function of the broker's state.
  module _ {B : Type 0} (ask : ReleaseRequest → B → Result ReleaseResponse × B) where
    asked : Result (RecipientKeypair × ReleaseRequest) → B → Result Bytes × B
    unfolding unwrap_kek
    asked (err e) b = (err e, b)
    asked (ok (kp, req)) b = let (answer, b') = ask req b in (unwrap_kek kp answer, b')

    pub attest_and_unwrap : String → Attester → Draws → B → Result Bytes × B
    unfolding make_request asked
    attest_and_unwrap resource_id attester drawn b =
        asked
          (do
            kp ← from_crypto (generate hmac cipher lib drawn.seed drawn.dk)
            req ← make_request resource_id attester drawn kp
            ok (kp, req))
          b
