-- ===== src/Keybroker/Broker/EndToEnd.antt =====
-- keybroker/src/lib.rs: a guest that is granted its request holds the broker's KEK.
use secgit.Prelude.{
  ℕ, ◌≡◌, refl, ap, sym, ◌∙◌, String, Option, some, Bytes, length, ◌==◌, if◌then◌else◌,
}
use secgit.Crypto.Error.{backend}
use secgit.Crypto.Error
use secgit.Crypto.Aead.{Cipher, nonce_len, or_err}
use secgit.Crypto.Kem.{
  KemLibrary, RecipientPublic, RecipientKeypair, to_bytes, from_bytes, public, generate, seal_to,
}
use secgit.Crypto.Kem.RoundTrip.{generate-IsPaired, from_bytes-to_bytes, open_wrapped-seal_to}
use secgit.Attest.{Evidence, Attester}
use secgit.Attest
use secgit.Keybroker.Broker.{
  ok, err, malformed, ReleaseRequest, ReleaseResponse, get_kek, LocalKeyBroker, Moment, Draws,
  release_report_data, release, make_request, unwrap_kek, asked, attest_and_unwrap,
}
use secgit.Keybroker.Broker.Granted.{release-IsGranted}

-- The request of a guest with these keys, this nonce and this evidence.
abbrev pub request_of : String → Evidence → RecipientKeypair → Bytes → ℕ → ReleaseRequest
request_of resource_id evidence kp nonce timestamp = record {
  resource_id = resource_id;
  evidence = evidence;
  runtime_pubkey = to_bytes (public kp);
  nonce = nonce;
  timestamp = timestamp;
}

module _ (sha512 : Bytes → Bytes) (hmac : Bytes → Bytes → Bytes) (cipher : Cipher)
    (lib : KemLibrary) (hex_encode : Bytes → String) where
  public_round_trip :
      (drawn_x drawn_dk : Option Bytes) (kp : RecipientKeypair)
      → generate hmac cipher lib drawn_x drawn_dk ≡ Error.ok kp
      → from_bytes (to_bytes (public kp)) ≡ Error.ok (public kp)
  unfolding public
  public_round_trip drawn_x drawn_dk kp made =
      let p = generate-IsPaired hmac cipher lib drawn_x drawn_dk kp made in
      from_bytes-to_bytes (public kp) (ap length p.x ∙ lib.x_long kp.x_secret)
        (lib.ek_short p.ek kp.mlkem_ek p.bytes)

  -- A guest that drew its keys and nonce, attested the binding of them, and whose request the broker
  -- releases, with a 12-byte nonce drawn for the cipher, ends with the very KEK that the broker
  -- holds for the resource where that has 32 bytes, and with an error where it has not.
  pub attest_and_unwrap-kek :
      (m : Moment) (resource_id : String) (attester : Attester)
      (drawn : Draws sha512 hmac cipher lib hex_encode) (kp : RecipientKeypair) (nonce : Bytes)
      (evidence : Evidence) (b b' : LocalKeyBroker) (resp : ReleaseResponse)
      → generate hmac cipher lib drawn.seed drawn.dk ≡ Error.ok kp
      → drawn.nonce ≡ some nonce
      → attester (
          release_report_data sha512 hmac cipher lib hex_encode nonce drawn.timestamp
            (to_bytes (public kp)))
        ≡ Attest.ok evidence
      → release sha512 hmac cipher lib hex_encode m
          (request_of resource_id evidence kp nonce drawn.timestamp)
          b
        ≡ (ok resp, b')
      → ((n : Bytes) → m.drawn_nonce ≡ some n → length n ≡ nonce_len)
      → (kek : Bytes) × (get_kek resource_id b.keks ≡ some kek)
        × (attest_and_unwrap sha512 hmac cipher lib hex_encode
              (release sha512 hmac cipher lib hex_encode m)
              resource_id
              attester
              drawn
              b
            ≡ (
              if length kek == 32 then ok kek else err (malformed "released KEK wrong length"),
              b',
            ))
  unfolding attest_and_unwrap make_request asked unwrap_kek or_err
  attest_and_unwrap-kek m resource_id attester drawn kp nonce evidence b b' resp made drew attested
        released twelve =
      let req = request_of resource_id evidence kp nonce drawn.timestamp in
      let granted = release-IsGranted sha512 hmac cipher lib hex_encode m req b b' resp released in
      let parsed = public_round_trip drawn.seed drawn.dk kp made in
      let same : granted.recipient ≡ public kp = crypto_same (sym granted.public_key ∙ parsed) in
      let sealed =
        ap (λ p. seal_to hmac cipher lib m.drawn_seed m.drawn_nonce p granted.kek) (sym same)
        ∙ granted.sealed in
      let opened =
        open_wrapped-seal_to hmac cipher lib drawn.seed drawn.dk m.drawn_seed m.drawn_nonce kp
          granted.kek resp.wrapped twelve made sealed in
      (granted.kek, granted.known, rw (made, drew, attested, released, opened) refl)
    where
      crypto_same : {p q : RecipientPublic} → Error.ok p ≡ Error.ok q → p ≡ q
      crypto_same h = cc
