-- ===== src/Crypto/Signature/Tests.antt =====
-- Runs of the model of sig.rs, and its theorems at concrete inputs.
use secgit.Crypto.Framing.{read_lp32, read, new_reader}
use secgit.Prelude.Words.{le_bytes, from_le}
use secgit.Prelude.{
  ℕ, ◌^◌, ◌<◌, ◌≡◌, refl, true, some, [], ◌∷◌, Bytes, bytes_eq, bytes_eq_refl, length, arith,
}
use secgit.Crypto.Error.{
  ok, err, bad_signature, ed25519_ml_dsa65, kind_byte, kind_from_u8, sig_u16, sig_from_u16,
}
use secgit.Crypto.Envelope.{decode, encode}
use secgit.Crypto.Signature.{
  SignatureLibrary, SigningKey, SigningKeyBundle, ml_dsa65, generate, sign, verify, verifying_key,
  generate_with_bundle, from_bundle,
}
use secgit.Crypto.Signature.RoundTrip.{verify-sign, verify-Accepted, Accepted}
use secgit.Crypto.Signature.Bundle.{from_bundle-generate_with_bundle}

-- A stand-in for the library: a signature is the key's first byte and the message's length.
first : Bytes → ℕ
first [] = 0
first (b ∷ bs) = b

tag : Bytes → Bytes → Bytes
unfolding first
tag key msg = first key ∷ length msg ∷ []

tag-short : (key msg : Bytes) → length (tag key msg) < 2 ^ 32
unfolding tag
tag-short key msg = omega arith

tag-right :
    (pair public msg sig : Bytes)
    → some pair ≡ some public
    → some (tag pair msg) ≡ some sig
    → bytes_eq (tag public msg) sig ≡ true
tag-right pair public msg sig e f =
    let same : pair ≡ public = cc in
    let same' : tag pair msg ≡ sig = cc in rw (← same', ← same) (bytes_eq_refl (tag pair msg))

tag-dsa_short : (key msg sig : Bytes) → some (tag key msg) ≡ some sig → length sig < 2 ^ 32
tag-dsa_short key msg sig e = let same : tag key msg ≡ sig = cc in rw (← same) (tag-short key msg)

toy_library : SignatureLibrary
unfolding tag
toy_library = record {
  ed_public = λ pair. some pair;
  ed_sign = tag;
  ed_verify = λ public msg sig. bytes_eq (tag public msg) sig;
  dsa_public = λ param seed. some seed;
  dsa_sign = λ param seed msg. some (tag seed msg);
  dsa_verify = λ param public msg sig. bytes_eq (tag public msg) sig;
  ed-verify = λ pair public msg e. tag-right pair public msg (tag pair msg) e refl;
  dsa-verify = λ param seed public msg sig e f. tag-right seed public msg sig e f;
  ed_short = tag-short;
  dsa_short = λ param seed msg sig e. tag-dsa_short seed msg sig e;
}

abbrev signing_key : SigningKey
signing_key = record {
  scheme = ed25519_ml_dsa65;
  ed = 5 ∷ [];
  ed_pub = 5 ∷ [];
  mldsa = record { param = ml_dsa65; seed = 9 ∷ []; public_bytes = 9 ∷ [] };
}

abbrev envelope : Bytes
envelope =
    b'S' ∷ b'G' ∷ b'X' ∷ b'1' ∷ 3 ∷ 1 ∷ 0 ∷ 1 ∷ 2 ∷ 0 ∷ 0 ∷ 0 ∷ 5 ∷ 1 ∷ 2 ∷ 0 ∷ 0 ∷ 0 ∷ 9 ∷ 1 ∷ []

generated : generate toy_library ed25519_ml_dsa65 (some (5 ∷ [])) (some (9 ∷ [])) ≡ ok signing_key
unfolding generate toy_library
generated = refl

signed : sign toy_library signing_key (1 ∷ []) ≡ ok envelope
unfolding sign toy_library encode kind_byte le_bytes
signed = refl

-- With one half changed, nothing verifies.
refused : verify toy_library (verifying_key signing_key) (1 ∷ 1 ∷ []) envelope ≡ err bad_signature
unfolding verify toy_library decode kind_from_u8 from_le verifying_key sig_u16 sig_from_u16
    read_lp32 read new_reader
refused = refl

verify-sign_example : verify toy_library (verifying_key signing_key) (1 ∷ []) envelope ≡ ok tt
verify-sign_example =
    verify-sign toy_library ed25519_ml_dsa65 (some (5 ∷ [])) (some (9 ∷ [])) signing_key (1 ∷ [])
      envelope generated signed

verify-Accepted_example :
    (env : _) × (decode envelope ≡ ok env)
    × Accepted toy_library (verifying_key signing_key) (1 ∷ []) env
verify-Accepted_example =
    verify-Accepted toy_library (verifying_key signing_key) (1 ∷ []) envelope verify-sign_example

abbrev bundle : SigningKeyBundle
bundle = record { scheme = 1; ed25519_pkcs8_hex = 5 ∷ []; mldsa_seed_hex = 9 ∷ [] }

bundled :
    generate_with_bundle toy_library
      (λ b. b)
      (λ b. some b)
      ed25519_ml_dsa65
      (some (5 ∷ []))
      (some (9 ∷ []))
    ≡ ok (signing_key, bundle)
unfolding generate_with_bundle toy_library
bundled = refl

from_bundle-sample : from_bundle toy_library (λ b. b) (λ b. some b) bundle ≡ ok signing_key
from_bundle-sample =
    from_bundle-generate_with_bundle toy_library (λ b. b) (λ b. some b) ed25519_ml_dsa65
      (some (5 ∷ [])) (some (9 ∷ [])) signing_key bundle (λ b. refl) bundled
