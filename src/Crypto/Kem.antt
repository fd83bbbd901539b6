-- ===== src/Crypto/Kem.antt =====
-- crates/secgit-crypto/src/kem.rs: the hybrid key encapsulation, X25519 with ML-KEM-768.
-- The libraries are the record `KemLibrary`, `Cipher` and `hmac`; a random draw is an argument,
-- `none` if it fails. A decapsulation key is an opaque text.
pub mod RoundTrip
pub mod Fixtures
pub mod Tests
use secgit.Prelude.{
  ℕ, ◌^◌, ◌<◌, ◌≡◌, Bool, true, false, not, Option, none, some, [], ◌++◌, Bytes, codes, length,
  ◌==◌, if◌then◌else◌,
}
use secgit.Crypto.Error.{
  CryptoError, unknown_version, malformed, auth_failed, backend, Result, ok, err, ◌>>=◌, Kind,
  wrapped_key, aes256_gcm, x25519_ml_kem768, kem_u16, kem_from_u16,
}
use secgit.Crypto.Error
use secgit.Crypto.Envelope.{Envelope, encode, decode}
use secgit.Crypto.Framing.{
  Writer, new_writer, put_bytes, put_lp32, Reader, new_reader, read, read_lp32, rest,
}
use secgit.Crypto.Aead.{Cipher, nonce_len, or_err}
use secgit.Crypto.Primitives.{hkdf_sha384}

-- What the code relies on: the two sides of a key agreement find the same secret, and so do the two
-- sides of an encapsulation; a public key of X25519 has 32 bytes, and the lengths of an encapsulation key
-- and of a ciphertext fit 32 bits. `unbound_key` is `none` for a text that cannot be an AES-256 key.
pub record KemLibrary : Type 0 where
  pub x_public : Bytes → Bytes
  pub diffie_hellman : Bytes → Bytes → Bytes
  pub encapsulation_key : Bytes → Option Bytes
  pub key_bytes : Bytes → Option Bytes
  pub new_encapsulation_key : Bytes → Option Bytes
  pub encapsulate : Bytes → Option (Bytes × Bytes)
  pub decapsulate : Bytes → Bytes → Option Bytes
  pub unbound_key : Bytes → Option Bytes
  pub agree : (a b : Bytes) → diffie_hellman a (x_public b) ≡ diffie_hellman b (x_public a)
  pub x_long : (a : Bytes) → length (x_public a) ≡ 32
  pub decapsulate-encapsulate :
      (dk ek text ek' ct ss : Bytes)
      → encapsulation_key dk ≡ some ek
      → key_bytes ek ≡ some text
      → new_encapsulation_key text ≡ some ek'
      → encapsulate ek' ≡ some (ct, ss)
      → decapsulate dk ct ≡ some ss
  pub ek_short : (ek text : Bytes) → key_bytes ek ≡ some text → length text < 2 ^ 32
  pub ct_short : (ek ct ss : Bytes) → encapsulate ek ≡ some (ct, ss) → length ct < 2 ^ 32

abbrev version : ℕ
version = 1

pub record RecipientPublic : Type 0 where
  pub x25519 : Bytes
  pub mlkem_ek : Bytes

unfoldable pub to_bytes : RecipientPublic → Bytes
unfolding new_writer put_bytes put_lp32
to_bytes p = (put_lp32 (put_bytes new_writer p.x25519) p.mlkem_ek).buf

unfoldable pub from_bytes : Bytes → Result RecipientPublic
from_bytes b = do
  (x, r) ← read (new_reader b) 32
  (ek, end) ← read_lp32 r
  ok (record { x25519 = x; mlkem_ek = ek })

pub record RecipientKeypair : Type 0 where
  pub x_secret : Bytes
  pub x_public : Bytes
  pub mlkem_dk : Bytes
  pub mlkem_ek : Bytes

unfoldable pub public : RecipientKeypair → RecipientPublic
public pair = record { x25519 = pair.x_public; mlkem_ek = pair.mlkem_ek }

is_wrapped_key : Kind → Bool
is_wrapped_key wrapped_key = true
is_wrapped_key _ = false

module _ (hmac : Bytes → Bytes → Bytes) where
  combine : Bytes → Bytes → Result Bytes
  combine x_ss mlkem_ss =
      hkdf_sha384 hmac (x_ss ++ mlkem_ss) (codes "secgit-hybrid-kem-salt")
        (codes "secgit/hybrid-kem/x25519+mlkem768/v1") 32

  module _ (cipher : Cipher) (lib : KemLibrary) where
    open cipher use {seal_in_place, open_in_place}
    open lib use {
      diffie_hellman, encapsulation_key, key_bytes, new_encapsulation_key, encapsulate, decapsulate,
      unbound_key,
    }

    unfoldable pub generate : Option Bytes → Option Bytes → Result RecipientKeypair
    unfolding or_err
    generate drawn_seed drawn_dk = do
      x_secret ← or_err drawn_seed backend
      mlkem_dk ← or_err drawn_dk backend
      ek ← or_err (encapsulation_key mlkem_dk) backend
      mlkem_ek ← or_err (key_bytes ek) backend
      ok (record {
        x_secret = x_secret;
        x_public = lib.x_public x_secret;
        mlkem_dk = mlkem_dk;
        mlkem_ek = mlkem_ek;
      })

    open_parts : RecipientKeypair → Bytes → Bytes → Bytes → Bytes → Result Bytes
    unfolding or_err combine
    open_parts pair eph_pub mlkem_ct nonce sealed = do
      mlkem_ss ← or_err (decapsulate pair.mlkem_dk mlkem_ct) backend
      aead_key ← combine (diffie_hellman pair.x_secret eph_pub) mlkem_ss
      k ← or_err (unbound_key aead_key) (Error.key "aead")
      or_err (open_in_place aes256_gcm k nonce [] sealed) auth_failed

    open_body : RecipientKeypair → Bytes → Result Bytes
    unfolding open_parts
    open_body pair body = do
      (eph_pub, r1) ← read (new_reader body) 32
      (mlkem_ct, r2) ← read_lp32 r1
      (nonce, r3) ← read r2 nonce_len
      open_parts pair eph_pub mlkem_ct nonce (rest r3).0

    open_envelope : RecipientKeypair → Envelope → Result Bytes
    unfolding is_wrapped_key open_body
    open_envelope pair env =
        if not (is_wrapped_key env.kind)
        then err (malformed "not a wrapped-key envelope")
        else if not (env.version == version)
        then err (unknown_version env.version)
        else do scheme ← kem_from_u16 env.scheme; open_body pair env.body

    unfoldable pub open_wrapped : RecipientKeypair → Bytes → Result Bytes
    unfolding open_envelope
    open_wrapped pair envelope_bytes = do env ← decode envelope_bytes; open_envelope pair env

    wrapped_envelope : Bytes → Bytes → Bytes → Bytes → Envelope
    unfolding new_writer put_bytes put_lp32 kem_u16
    wrapped_envelope eph_public mlkem_ct nonce sealed =
        let w = put_lp32 (put_bytes new_writer eph_public) mlkem_ct in
        let w = put_bytes (put_bytes w nonce) sealed in
        record {
          kind = wrapped_key;
          scheme = kem_u16 x25519_ml_kem768;
          version = version;
          body = w.buf;
        }

    unfoldable pub seal_to : Option Bytes → Option Bytes → RecipientPublic → Bytes → Result Bytes
    unfolding or_err combine wrapped_envelope
    seal_to drawn_seed drawn_nonce recipient secret = do
      eph_secret ← or_err drawn_seed backend
      ek ← or_err (new_encapsulation_key recipient.mlkem_ek) (Error.key "bad ml-kem ek")
      (mlkem_ct, mlkem_ss) ← or_err (encapsulate ek) backend
      aead_key ← combine (diffie_hellman eph_secret recipient.x25519) mlkem_ss
      k ← or_err (unbound_key aead_key) (Error.key "aead")
      nonce ← or_err drawn_nonce backend
      sealed ← or_err (seal_in_place aes256_gcm k nonce [] secret) backend
      ok (encode (wrapped_envelope (lib.x_public eph_secret) mlkem_ct nonce sealed))
