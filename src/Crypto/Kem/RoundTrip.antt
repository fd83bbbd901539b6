-- ===== src/Crypto/Kem/RoundTrip.antt =====
-- kem.rs: a secret sealed to a recipient opens for it, and a public key survives its bytes.
use secgit.Prelude.{
  ◌^◌, ◌<◌, ◌≡◌, refl, ap, sym, ◌∙◌, Option, some, [], ◌++◌, Bytes, arith, length, drop,
  append_assoc, append-nil,
}
use secgit.Crypto.Error.{backend, ok, chain_ok, ok_same, aes256_gcm, kem_u16, kem_from_u16}
use secgit.Crypto.Envelope.{encode, decode-encode}
use secgit.Crypto.Framing.{
  new_writer, put_bytes, put_lp32, new_reader, rest, read_prefix, drop_prefix, lp32_text,
  read_lp32_at,
}
use secgit.Crypto.Aead.{Cipher, nonce_len, or_err}
use secgit.Crypto.Aead.RoundTrip.{or_err-ok}
use secgit.Crypto.Kem.{
  KemLibrary, RecipientPublic, RecipientKeypair, to_bytes, from_bytes, public, is_wrapped_key,
  combine, generate, open_parts, open_body, open_envelope, open_wrapped, wrapped_envelope, seal_to,
}

-- A public key of 32 bytes and an ML-KEM key of less than 2 ^ 32 is read back whole.
pub from_bytes-to_bytes :
    (p : RecipientPublic)
    → length p.x25519 ≡ 32
    → length p.mlkem_ek < 2 ^ 32
    → from_bytes (to_bytes p) ≡ ok p
unfolding from_bytes to_bytes new_writer put_bytes put_lp32 new_reader
from_bytes-to_bytes p n short =
    let x = p.x25519 in
    let first = rw n at (read_prefix [] x (lp32_text p.mlkem_ek)) in
    let second =
      rw (n, append-nil (lp32_text p.mlkem_ek)) at (read_lp32_at x p.mlkem_ek [] short) in
    rw (append_assoc x _ p.mlkem_ek, first, second) refl

module _ (hmac : Bytes → Bytes → Bytes) (cipher : Cipher) (lib : KemLibrary) where
  open cipher use {seal_in_place, open_in_place, open-seal}
  open lib use {
    diffie_hellman, encapsulation_key, key_bytes, new_encapsulation_key, encapsulate, decapsulate,
    unbound_key,
  }

  -- The halves of a pair belong together.
  pub record IsPaired (pair : RecipientKeypair) : Type 0 where
    pub ek : Bytes
    pub x : pair.x_public ≡ lib.x_public pair.x_secret
    pub encapsulates : encapsulation_key pair.mlkem_dk ≡ some ek
    pub bytes : key_bytes ek ≡ some pair.mlkem_ek

  pub generate-IsPaired :
      (drawn_seed drawn_dk : Option Bytes) (pair : RecipientKeypair)
      → generate hmac cipher lib drawn_seed drawn_dk ≡ ok pair
      → IsPaired pair
  unfolding generate
  generate-IsPaired drawn_seed drawn_dk pair h =
      let (x_secret, seeded, h1) = chain_ok (or_err drawn_seed backend) _ h in
      let (mlkem_dk, drew, h2) = chain_ok (or_err drawn_dk backend) _ h1 in
      let (ek, found, h3) = chain_ok (or_err (encapsulation_key mlkem_dk) backend) _ h2 in
      let (mlkem_ek, text, h4) = chain_ok (or_err (key_bytes ek) backend) _ h3 in
      rw (← ok_same h4) (record {
        ek = ek;
        x = refl;
        encapsulates = or_err-ok _ backend found;
        bytes = or_err-ok _ backend text;
      })

  four_fields :
      (a b c d : Bytes)
      → (wrapped_envelope hmac cipher lib a b c d).body ≡ a ++ (lp32_text b ++ (c ++ d))
  unfolding wrapped_envelope put_lp32 put_bytes new_writer
  four_fields a b c d = simp append_assoc

  open_body_fields :
      (pair : RecipientKeypair) (a b c d : Bytes)
      → length a ≡ 32
      → length b < 2 ^ 32
      → length c ≡ nonce_len
      → open_body hmac cipher lib pair (a ++ (lp32_text b ++ (c ++ d)))
        ≡ open_parts hmac cipher lib pair a b c d
  unfolding open_body new_reader rest
  open_body_fields pair a b c d long short size =
      let first = rw long at (read_prefix [] a (lp32_text b ++ (c ++ d))) in
      let second = rw long at (read_lp32_at a b (c ++ d) short) in
      let third = rw size at (read_prefix (a ++ lp32_text b) c d) in
      let before = (a ++ lp32_text b) ++ c in
      let after : drop (length before) (before ++ d) ≡ d = drop_prefix before d in
      rw (first, second, third, after) refl

  open_parts_lem :
      (pair : RecipientKeypair) (eph_pub ct nonce sealed ss aead_key k secret : Bytes)
      → decapsulate pair.mlkem_dk ct ≡ some ss
      → combine hmac (diffie_hellman pair.x_secret eph_pub) ss ≡ ok aead_key
      → unbound_key aead_key ≡ some k
      → open_in_place aes256_gcm k nonce [] sealed ≡ some secret
      → open_parts hmac cipher lib pair eph_pub ct nonce sealed ≡ ok secret
  unfolding open_parts or_err
  open_parts_lem pair eph_pub ct nonce sealed ss aead_key k secret a b c d = rw (a, b, c, d) refl

  open_wrapped-encode :
      (pair : RecipientKeypair) (a b c d secret : Bytes)
      → length a ≡ 32
      → length b < 2 ^ 32
      → length c ≡ nonce_len
      → open_parts hmac cipher lib pair a b c d ≡ ok secret
      → open_wrapped hmac cipher lib pair (encode (wrapped_envelope hmac cipher lib a b c d))
        ≡ ok secret
  unfolding open_wrapped open_envelope is_wrapped_key wrapped_envelope kem_u16 kem_from_u16
  open_wrapped-encode pair a b c d secret long short size h =
      rw
        (
          decode-encode (wrapped_envelope hmac cipher lib a b c d) (omega arith),
          four_fields a b c d,
          open_body_fields pair a b c d long short size,
        )
        h

  -- A secret sealed to the public half of a generated pair opens under that pair, with a 12-byte
  -- nonce drawn.
  pub open_wrapped-seal_to :
      (drawn_x drawn_dk drawn_seed drawn_nonce : Option Bytes) (pair : RecipientKeypair)
      (secret envelope : Bytes)
      → ((nonce : Bytes) → drawn_nonce ≡ some nonce → length nonce ≡ nonce_len)
      → generate hmac cipher lib drawn_x drawn_dk ≡ ok pair
      → seal_to hmac cipher lib drawn_seed drawn_nonce (public pair) secret ≡ ok envelope
      → open_wrapped hmac cipher lib pair envelope ≡ ok secret
  unfolding seal_to public
  open_wrapped-seal_to drawn_x drawn_dk drawn_seed drawn_nonce pair secret envelope n made h =
      let (seed, seeded, h1) = chain_ok (or_err drawn_seed backend) _ h in
      let (ek', parsed, h2) = chain_ok (or_err (new_encapsulation_key pair.mlkem_ek) _) _ h1 in
      let ((ct, ss), capsule, h3) = chain_ok (or_err (encapsulate ek') backend) _ h2 in
      let (aead_key, mixed, h4) = chain_ok (combine hmac _ ss) _ h3 in
      let (k, bound, h5) = chain_ok (or_err (unbound_key aead_key) _) _ h4 in
      let (nonce, drew, h6) = chain_ok (or_err drawn_nonce backend) _ h5 in
      let (sealed, closed, h7) =
        chain_ok (or_err (seal_in_place aes256_gcm k nonce [] secret) backend) _ h6 in
      let p = generate-IsPaired drawn_x drawn_dk pair made in
      let decaps =
        lib.decapsulate-encapsulate pair.mlkem_dk p.ek pair.mlkem_ek ek' ct ss p.encapsulates
          p.bytes (or_err-ok _ _ parsed) (or_err-ok _ _ capsule) in
      let shared : diffie_hellman pair.x_secret (lib.x_public seed)
          ≡ diffie_hellman seed pair.x_public =
        lib.agree pair.x_secret seed ∙ ap (diffie_hellman seed) (sym p.x) in
      let mixed' = ap (λ s. combine hmac s ss) shared ∙ mixed in
      let opens =
        open_parts_lem pair (lib.x_public seed) ct nonce sealed ss aead_key k secret decaps mixed'
          (or_err-ok _ _ bound)
          (open-seal aes256_gcm k nonce [] secret sealed (or_err-ok _ _ closed)) in
      rw (← ok_same h7) (
        open_wrapped-encode pair (lib.x_public seed) ct nonce sealed secret (lib.x_long seed)
          (lib.ct_short ek' ct ss (or_err-ok _ _ capsule)) (n nonce (or_err-ok _ _ drew)) opens)
