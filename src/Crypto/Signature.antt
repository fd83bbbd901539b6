-- ===== src/Crypto/Signature.antt =====
-- crates/secgit-crypto/src/sig.rs and mldsa.rs: hybrid signatures, valid where both halves are.
-- The library aws-lc-rs is the record `SignatureLibrary`; a random draw is an argument, `none` if
-- it fails.
pub mod RoundTrip
pub mod Bundle
pub mod Tests
use secgit.Prelude.{
  ℕ, ◌^◌, ◌<◌, ◌≡◌, Bool, true, false, not, Option, none, some, Bytes, length, ◌==◌, if◌then◌else◌,
}
use secgit.Crypto.Error.{
  CryptoError, unknown_version, malformed, bad_signature, backend, Result, ok, err, ◌>>=◌, Kind,
  signature, SigScheme, ed25519_ml_dsa65, ed25519_ml_dsa87, sig_u16, sig_from_u16,
}
use secgit.Crypto.Error
use secgit.Crypto.Envelope.{Envelope, encode, decode}
use secgit.Crypto.Framing.{new_writer, put_lp32, Reader, new_reader, read_lp32}
use secgit.Crypto.Aead.{or_err}

pub data Param : Type 0 where
  ml_dsa65 ml_dsa87 : Param

-- What the code relies on: each half verifies what its own key signed, and a signature's length
-- fits 32 bits. A key pair of Ed25519 is its PKCS #8 text, one of ML-DSA its seed.
pub record SignatureLibrary : Type 0 where
  pub ed_public : Bytes → Option Bytes
  pub ed_sign : Bytes → Bytes → Bytes
  pub ed_verify : Bytes → Bytes → Bytes → Bool
  pub dsa_public : Param → Bytes → Option Bytes
  pub dsa_sign : Param → Bytes → Bytes → Option Bytes
  pub dsa_verify : Param → Bytes → Bytes → Bytes → Bool
  pub ed-verify :
      (pair public msg : Bytes)
      → ed_public pair ≡ some public
      → ed_verify public msg (ed_sign pair msg) ≡ true
  pub dsa-verify :
      (param : Param) (seed public msg sig : Bytes)
      → dsa_public param seed ≡ some public
      → dsa_sign param seed msg ≡ some sig
      → dsa_verify param public msg sig ≡ true
  pub ed_short : (pair msg : Bytes) → length (ed_sign pair msg) < 2 ^ 32
  pub dsa_short :
      (param : Param) (seed msg sig : Bytes)
      → dsa_sign param seed msg ≡ some sig
      → length sig < 2 ^ 32

abbrev version : ℕ
version = 1

pub param_for : SigScheme → Param
param_for ed25519_ml_dsa65 = ml_dsa65
param_for ed25519_ml_dsa87 = ml_dsa87

pub record MlDsaKey : Type 0 where
  pub param : Param
  pub seed : Bytes
  pub public_bytes : Bytes

pub record SigningKey : Type 0 where
  pub scheme : SigScheme
  pub ed : Bytes
  pub ed_pub : Bytes
  pub mldsa : MlDsaKey

pub record SigningKeyBundle : Type 0 where
  pub scheme : ℕ
  pub ed25519_pkcs8_hex : Bytes
  pub mldsa_seed_hex : Bytes

pub record VerifyingKey : Type 0 where
  pub scheme : ℕ
  pub ed25519_pub : Bytes
  pub mldsa_pub : Bytes

is_signature : Kind → Bool
is_signature signature = true
is_signature _ = false

pub verifying_key : SigningKey → VerifyingKey
verifying_key key = record {
  scheme = sig_u16 key.scheme;
  ed25519_pub = key.ed_pub;
  mldsa_pub = key.mldsa.public_bytes;
}

module _ (lib : SignatureLibrary) where
  open lib use {ed_public, ed_sign, ed_verify, dsa_public, dsa_sign, dsa_verify}

  pub mldsa_from_seed : Param → Bytes → Result MlDsaKey
  unfolding or_err
  mldsa_from_seed param seed = do
    public_bytes ← or_err (dsa_public param seed) backend
    ok (record { param = param; seed = seed; public_bytes = public_bytes })

  pub mldsa_generate : Param → Option Bytes → Result MlDsaKey
  unfolding or_err mldsa_from_seed
  mldsa_generate param drawn = do seed ← or_err drawn backend; mldsa_from_seed param seed

  pub generate : SigScheme → Option Bytes → Option Bytes → Result SigningKey
  unfolding or_err mldsa_generate param_for
  generate scheme drawn_pair drawn_seed = do
    pair ← or_err drawn_pair backend
    ed_pub ← or_err (ed_public pair) backend
    mldsa ← mldsa_generate (param_for scheme) drawn_seed
    ok (record { scheme = scheme; ed = pair; ed_pub = ed_pub; mldsa = mldsa })

  pub sign : SigningKey → Bytes → Result Bytes
  unfolding or_err new_writer put_lp32 sig_u16
  sign key msg = do
    mldsa_sig ← or_err (dsa_sign key.mldsa.param key.mldsa.seed msg) backend
    ok (
        encode (record {
          kind = signature;
          scheme = sig_u16 key.scheme;
          version = version;
          body = (put_lp32 (put_lp32 new_writer (ed_sign key.ed msg)) mldsa_sig).buf;
        }))

  verify_halves : VerifyingKey → Bytes → SigScheme → Bytes → Bytes → Result (Unit {0})
  unfolding param_for
  verify_halves vk msg scheme ed_sig mldsa_sig =
      if not (ed_verify vk.ed25519_pub msg ed_sig)
      then err bad_signature
      else if not (dsa_verify (param_for scheme) vk.mldsa_pub msg mldsa_sig)
      then err bad_signature
      else ok tt

  verify_envelope : VerifyingKey → Bytes → Envelope → Result (Unit {0})
  unfolding is_signature verify_halves
  verify_envelope vk msg env =
      if not (is_signature env.kind)
      then err (malformed "not a signature envelope")
      else if not (env.version == version)
      then err (unknown_version env.version)
      else if not (env.scheme == vk.scheme)
      then err (malformed "scheme mismatch with verifying key")
      else do
        scheme ← sig_from_u16 env.scheme
        (ed_sig, r) ← read_lp32 (new_reader env.body)
        (mldsa_sig, end) ← read_lp32 r
        verify_halves vk msg scheme ed_sig mldsa_sig

  pub verify : VerifyingKey → Bytes → Bytes → Result (Unit {0})
  unfolding verify_envelope
  verify vk msg envelope_bytes = do env ← decode envelope_bytes; verify_envelope vk msg env

  -- `hex` writes and reads the texts of a bundle.
  module _ (hex_encode : Bytes → Bytes) (hex_decode : Bytes → Option Bytes) where
    pub generate_with_bundle :
        SigScheme → Option Bytes → Option Bytes → Result (SigningKey × SigningKeyBundle)
    unfolding generate sig_u16
    generate_with_bundle scheme drawn_pair drawn_seed = do
      key ← generate scheme drawn_pair drawn_seed
      ok (
        key,
        record {
          scheme = sig_u16 scheme;
          ed25519_pkcs8_hex = hex_encode key.ed;
          mldsa_seed_hex = hex_encode key.mldsa.seed;
        },
      )

    pub from_bundle : SigningKeyBundle → Result SigningKey
    unfolding or_err mldsa_from_seed param_for
    from_bundle bundle = do
      scheme ← sig_from_u16 bundle.scheme
      pair ← or_err (hex_decode bundle.ed25519_pkcs8_hex) (Error.key "bad pkcs8 hex")
      ed_pub ← or_err (ed_public pair) backend
      seed ← or_err (hex_decode bundle.mldsa_seed_hex) (Error.key "bad mldsa seed hex")
      mldsa ← mldsa_from_seed (param_for scheme) seed
      ok (record { scheme = scheme; ed = pair; ed_pub = ed_pub; mldsa = mldsa })
