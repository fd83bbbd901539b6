-- ===== src/Keybroker/Broker/Tests.antt =====
-- Runs of the release, and its theorems at concrete inputs.
use secgit.Prelude.{
  ◌≡◌, ◌≢◌, refl, String, true, false, none, some, [], ◌∷◌, Bytes, length, arith, ◌==◌,
  if◌then◌else◌,
}
use secgit.Prelude.Maps.{lookup, insert, contains_key, retain}
use secgit.Prelude.Words.{le_bytes, from_le}
use secgit.Crypto.Error.{kind_byte}
use secgit.Crypto.Error
use secgit.Crypto.Aead.{nonce_len, or_err}
use secgit.Crypto.Primitives.{hkdf_sha384}
use secgit.Crypto.Framing.{read, read_lp32, new_reader}
use secgit.Crypto.Envelope.{encode}
use secgit.Crypto.Kem.{RecipientKeypair, to_bytes, from_bytes, public, generate, seal_to}
use secgit.Crypto.Kem.Fixtures.{
  repeat, length-repeat, toy_public, toy_hmac, toy_cipher, toy_library,
}
use secgit.Attest.{bind, Evidence, mock, mock_facts, Policy, Attester, Verifier}
use secgit.Attest
use secgit.Keybroker.Replay.{ReplayGuard, check_and_record_at}
use secgit.Keybroker.Broker.{
  Result, ok, err, ReleaseRequest, ReleaseResponse, get_kek, LocalKeyBroker, Moment, Draws, release,
  release_report_data, attest_and_unwrap, with_replay_guard, new_broker, insert_kek, malformed,
}
use secgit.Keybroker.Broker.Granted.{after_releases, IsGranted, release-IsGranted, release_once}
use secgit.Keybroker.Broker.EndToEnd.{request_of, attest_and_unwrap-kek}

abbrev policy : Policy
policy = record { allowed_measurements = []; require_vendor_root = false; expected_vmpl = none }

-- Stand-ins: the hash keeps its text, the attester hands out the binding, the verifier takes it.
abbrev hash : Bytes → Bytes
hash b = b

abbrev attester : Attester
attester rd = Attest.ok (record { backend = mock; report = rd; runtime_pubkey = [] })

abbrev verifier : Verifier
verifier evidence expected p = Attest.ok (record {
  backend = mock;
  measurement = [];
  report_data = expected;
  vendor_verified = false;
  extra = mock_facts;
})

abbrev hex : Bytes → String
hex b = "00"

abbrev guard : ReplayGuard
guard = record { ttl_secs = 300; future_skew_secs = 60; seen = []; file = [] }

abbrev kek : Bytes
kek = repeat 32 6

abbrev broker : LocalKeyBroker
broker = record {
  verifier = verifier;
  policy = policy;
  keks = record { keks = ("repo", kek) ∷ [] };
  replay_guard = some guard;
}

built :
    with_replay_guard guard
      (new_broker verifier policy (insert_kek "repo" kek (record { keks = [] })))
    ≡ broker
unfolding with_replay_guard new_broker insert_kek insert
built = refl

abbrev moment : Moment
moment = record {
  now = 1000;
  written = true;
  drawn_seed = some (3 ∷ []);
  drawn_nonce = some (repeat 12 1);
}

abbrev pair : RecipientKeypair
pair = record { x_secret = 5 ∷ []; x_public = repeat 32 5; mlkem_dk = 9 ∷ []; mlkem_ek = 9 ∷ [] }

abbrev drawn : Draws hash toy_hmac toy_cipher toy_library hex
drawn = record { seed = some (5 ∷ []); dk = some (9 ∷ []); nonce = some (8 ∷ []); timestamp = 1000 }

generated : generate toy_hmac toy_cipher toy_library (some (5 ∷ [])) (some (9 ∷ [])) ≡ Error.ok pair
unfolding generate toy_library toy_public toy_cipher toy_hmac or_err
generated = refl

evidence : Evidence
evidence = record {
  backend = mock;
  report =
      release_report_data hash toy_hmac toy_cipher toy_library hex (8 ∷ []) 1000
        (to_bytes (public pair));
  runtime_pubkey = [];
}

request : ReleaseRequest
request = request_of "repo" evidence pair (8 ∷ []) 1000

run : Result ReleaseResponse × LocalKeyBroker
run = release hash toy_hmac toy_cipher toy_library hex moment request broker

response : ReleaseResponse
unfolding run
response = elim (run.0) [ ok r ↦ r | err e ↦ record { wrapped = [] } ]

after : LocalKeyBroker
unfolding run
after = run.1

released :
    release hash toy_hmac toy_cipher toy_library hex moment request broker ≡ (ok response, after)
unfolding release run response after request seal_to toy_library toy_cipher public toy_hmac
    hkdf_sha384 encode kind_byte le_bytes check_and_record_at from_bytes to_bytes get_kek lookup
    from_le read read_lp32 new_reader contains_key retain or_err
released = refl

release-IsGranted_example :
    IsGranted hash toy_hmac toy_cipher toy_library hex moment request broker response after
release-IsGranted_example =
    release-IsGranted hash toy_hmac toy_cipher toy_library hex moment request broker after response
      released

abbrev later : Moment
later = record moment { now = 1300 }

-- Another request in between, with a nonce of its own.
abbrev soon : Moment
soon = record moment { now = 1200 }

other_request : ReleaseRequest
other_request = request_of "repo" evidence pair (7 ∷ []) 1200

release_once_example :
    (release hash toy_hmac toy_cipher toy_library hex later request (
      after_releases hash toy_hmac toy_cipher toy_library hex ((soon, other_request) ∷ []) after)).0
    ≢ ok response
release_once_example =
    release_once hash toy_hmac toy_cipher toy_library hex moment later request request
      ((soon, other_request) ∷ []) broker after guard response response refl tt released
      (omega arith, tt) refl (omega arith)

attest_and_unwrap-kek_example :
    (k : Bytes) × (get_kek "repo" broker.keks ≡ some k)
    × (attest_and_unwrap hash toy_hmac toy_cipher toy_library hex
          (release hash toy_hmac toy_cipher toy_library hex moment)
          "repo"
          attester
          drawn
          broker
        ≡ (if length k == 32 then ok k else err (malformed "released KEK wrong length"), after))
unfolding evidence request
attest_and_unwrap-kek_example =
    attest_and_unwrap-kek hash toy_hmac toy_cipher toy_library hex moment "repo" attester drawn pair
      (8 ∷ []) evidence broker after response generated refl attested as_request twelve
  where
    attested :
        attester (
          release_report_data hash toy_hmac toy_cipher toy_library hex
            (8 ∷ [])
            1000
            (to_bytes (public pair)))
        ≡ Attest.ok evidence
    attested = refl

    as_request :
        release hash toy_hmac toy_cipher toy_library hex moment
          (request_of "repo" evidence pair (8 ∷ []) 1000)
          broker
        ≡ (ok response, after)
    as_request = released

    twelve : (n : Bytes) → some (repeat 12 1) ≡ some n → length n ≡ nonce_len
    twelve n e = let same : repeat 12 1 ≡ n = cc in rw (← same) (length-repeat 12 1)
