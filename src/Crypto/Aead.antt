-- ===== src/Crypto/Aead.antt =====
-- crates/secgit-crypto/src/aead.rs: sealing and opening envelopes, wrapping and unwrapping keys.
-- The cipher (aws-lc-rs) is the record `Cipher`; a random draw is an argument, `none` if it fails.
pub mod RoundTrip
use secgit.Prelude.{
  ℕ, ◌+◌, ◌^◌, ◌≤◌, ◌<◌, ◌≡◌, refl, ap, sym, ◌∙◌, Bool, true, false, not, Option, none, some, List,
  [], ◌∷◌, ◌++◌, Bytes, codes, arith, All, length, length-append, take, drop, ltb, le→ltb, ◌==◌,
  ==_iff, if◌then◌else◌, Option-cases, inl, inr,
}
use secgit.Prelude.Words.{IsByte}
use secgit.Crypto.Error.{
  CryptoError, unknown_version, malformed, auth_failed, backend, Result, ok, err, ◌>>=◌, chain_ok,
  Kind, aead, wrapped_key, signature, AeadScheme, scheme_u16, scheme_from_u16,
  scheme_from_u16-scheme_u16, scheme_u16-scheme_from_u16,
}
use secgit.Crypto.Error
use secgit.Crypto.Envelope.{Envelope, encode, decode, decode-encode, encode-decode}
use secgit.Crypto.Framing.{Writer, new_writer, put_bytes, Reader, new_reader, read, rest}

-- What the code relies on: a text that was sealed opens under the same key, nonce and associated data.
pub record Cipher : Type 0 where
  pub seal_in_place : AeadScheme → Bytes → Bytes → Bytes → Bytes → Option Bytes
  pub open_in_place : AeadScheme → Bytes → Bytes → Bytes → Bytes → Option Bytes
  pub open-seal :
      (s : AeadScheme) (key nonce aad plain sealed : Bytes)
      → seal_in_place s key nonce aad plain ≡ some sealed
      → open_in_place s key nonce aad sealed ≡ some plain

abbrev pub nonce_len : ℕ
nonce_len = 12

abbrev version : ℕ
version = 1

unfoldable pub or_err {ℓ} : {A : Type ℓ} → Option A → CryptoError → Result A
or_err none e = err e
or_err (some a) e = ok a

is_aead : Kind → Bool
is_aead aead = true
is_aead _ = false

wrap_aad : Bytes
wrap_aad = codes "secgit/dek-wrap/v1"

module _ (cipher : Cipher) where
  open cipher use {seal_in_place, open_in_place, open-seal}

  pub sealed_envelope : AeadScheme → Bytes → Bytes → Envelope
  unfolding new_writer put_bytes
  sealed_envelope scheme nonce sealed = record {
    kind = aead;
    scheme = scheme_u16 scheme;
    version = version;
    body = (put_bytes (put_bytes new_writer nonce) sealed).buf;
  }

  unfoldable pub seal : Option Bytes → AeadScheme → Bytes → Bytes → Bytes → Result Bytes
  unfolding sealed_envelope or_err
  seal drawn scheme key aad plaintext = do
    nonce ← or_err drawn backend
    sealed ← or_err (seal_in_place scheme key nonce aad plaintext) backend
    ok (encode (sealed_envelope scheme nonce sealed))

  open_envelope : Bytes → Bytes → Envelope → Result Bytes
  unfolding or_err is_aead
  open_envelope key aad env =
      if not (is_aead env.kind)
      then err (malformed "not an aead envelope")
      else if not (env.version == version)
      then err (unknown_version env.version)
      else do
        scheme ← scheme_from_u16 env.scheme
        (nonce, r) ← read (new_reader env.body) nonce_len
        or_err (open_in_place scheme key nonce aad (rest r).0) auth_failed

  unfoldable pub open_sealed : Bytes → Bytes → Bytes → Result Bytes
  unfolding open_envelope
  open_sealed key aad envelope_bytes = do env ← decode envelope_bytes; open_envelope key aad env

  unfoldable pub wrap_key : Option Bytes → AeadScheme → Bytes → Bytes → Result Bytes
  unfolding wrap_aad
  wrap_key drawn scheme kek dek = seal drawn scheme kek wrap_aad dek

  unfoldable pub unwrap_key : Bytes → Bytes → Result Bytes
  unfolding wrap_aad
  unwrap_key kek wrapped = do
    pt ← open_sealed kek wrap_aad wrapped
    if length pt == 32 then ok pt else err (Error.key "unwrapped key wrong length")
