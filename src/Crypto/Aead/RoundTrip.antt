-- ===== src/Crypto/Aead/RoundTrip.antt =====
-- aead.rs: what was sealed opens, a wrapped key unwraps, and nothing else opens.
use secgit.Prelude.{
  ℕ, ◌^◌, ◌<◌, ◌≡◌, refl, ap, ap₂, sym, ◌∙◌, Option, none, some, [], ◌++◌, Bytes, arith, All,
  length, drop, length-take, take-append-drop, ◌==◌, ==_iff, Bool-cases, inl, inr,
}
use secgit.Prelude.Words.{IsByte}
use secgit.Crypto.Error.{
  backend, auth_failed, ok, chain_ok, Kind, aead, wrapped_key, signature, AeadScheme, aes256_gcm,
  chacha20_poly1305, scheme_u16, scheme_from_u16, scheme_from_u16-scheme_u16,
  scheme_u16-scheme_from_u16,
}
use secgit.Crypto.Envelope.{Envelope, encode, decode, decode-encode, encode-decode}
use secgit.Crypto.Framing.{new_reader, read, rest, read_prefix, drop_prefix, read-ok}
use secgit.Crypto.Aead.{
  Cipher, nonce_len, version, or_err, sealed_envelope, seal, open_envelope, open_sealed, wrap_aad,
  wrap_key, unwrap_key,
}

pub or_err-ok {ℓ} : {A : Type ℓ} (o : Option A) (e : _) {a : A} → or_err o e ≡ ok a → o ≡ some a
unfolding or_err
or_err-ok none e h = cc
or_err-ok (some a) e h = cc

scheme_u16-lt : (s : AeadScheme) → scheme_u16 s < 2 ^ 16
unfolding scheme_u16
scheme_u16-lt aes256_gcm = omega arith
scheme_u16-lt chacha20_poly1305 = omega arith

module _ (cipher : Cipher) where
  open cipher use {seal_in_place, open_in_place, open-seal}

  open_envelope-sealed :
      (scheme : AeadScheme) (key nonce aad plain sealed : Bytes)
      → length nonce ≡ nonce_len
      → seal_in_place scheme key nonce aad plain ≡ some sealed
      → open_envelope cipher key aad (sealed_envelope cipher scheme nonce sealed) ≡ ok plain
  unfolding open_envelope sealed_envelope new_reader rest
  open_envelope-sealed scheme key nonce aad plain sealed n h =
      let r = rw n at (read_prefix [] nonce sealed) in
      let after : drop nonce_len (nonce ++ sealed) ≡ sealed = rw n at (drop_prefix nonce sealed) in
      rw
        (scheme_from_u16-scheme_u16 scheme, r, after, open-seal scheme key nonce aad plain sealed h)

  -- A text that was sealed, with a 12-byte nonce drawn, opens again under the same key and
  -- associated data.
  pub open_sealed-seal :
      (drawn : Option Bytes) (scheme : AeadScheme) (key aad plain envelope : Bytes)
      → ((nonce : Bytes) → drawn ≡ some nonce → length nonce ≡ nonce_len)
      → seal cipher drawn scheme key aad plain ≡ ok envelope
      → open_sealed cipher key aad envelope ≡ ok plain
  unfolding seal open_sealed
  open_sealed-seal none scheme key aad plain envelope n h = cc
  open_sealed-seal (some nonce) scheme key aad plain envelope n h =
      let (sealed, got, made) =
        chain_ok (or_err (seal_in_place scheme key nonce aad plain) backend) _ h in
      let env = sealed_envelope cipher scheme nonce sealed in
      let made' : encode env ≡ envelope = cc in
      rw (← made', decode-encode env (scheme_u16-lt scheme))
        (open_envelope-sealed scheme key nonce aad plain sealed (n nonce refl)
          (or_err-ok _ backend got))

  -- A 32-byte data key that was wrapped, with a 12-byte nonce drawn, unwraps under the same
  -- key-encryption key.
  pub unwrap_key-wrap_key :
      (drawn : Option Bytes) (scheme : AeadScheme) (kek dek wrapped : Bytes)
      → ((nonce : Bytes) → drawn ≡ some nonce → length nonce ≡ nonce_len)
      → length dek ≡ 32
      → wrap_key cipher drawn scheme kek dek ≡ ok wrapped
      → unwrap_key cipher kek wrapped ≡ ok dek
  unfolding wrap_key unwrap_key
  unwrap_key-wrap_key drawn scheme kek dek wrapped n size h =
      rw (
        open_sealed-seal drawn scheme kek wrap_aad dek wrapped n h,
        (==_iff (length dek) 32).1 size,
      )

  -- What `open_envelope` found in an envelope's fields when it opened it.
  Opened : Bytes → Bytes → Envelope → Bytes → Type 0
  Opened key aad env plain =
      (scheme : AeadScheme) × (nonce : Bytes) × (sealed : Bytes) × (env
        ≡ sealed_envelope cipher scheme nonce sealed)
      × (length nonce ≡ nonce_len)
      × (open_in_place scheme key nonce aad sealed ≡ some plain)

  open_body :
      (key aad : Bytes) (kind : Kind) (scheme16 v : ℕ) (body plain : Bytes)
      → open_envelope cipher key aad
          (record { kind = kind; scheme = scheme16; version = v; body = body })
        ≡ ok plain
      → Opened key aad (record { kind = kind; scheme = scheme16; version = v; body = body }) plain
  unfolding Opened open_envelope sealed_envelope
  open_body key aad wrapped_key scheme16 v body plain h = cc
  open_body key aad signature scheme16 v body plain h = cc
  open_body key aad aead scheme16 v body plain h = elim (Bool-cases (v == version)) [
    | inr bad ↦ absurd (cc (rw bad at h))
    | inl good ↦
        let (scheme, known, h') = chain_ok (scheme_from_u16 scheme16) _ (rw good at h) in
        let ((nonce, r), got, h'') = chain_ok (read (new_reader body) nonce_len) _ h' in
        let (long, nonce_is, rest_is) = read-ok body nonce_len nonce r got in
        let whole : nonce ++ drop nonce_len body ≡ body =
          rw nonce_is (take-append-drop nonce_len body) in
        (
          scheme,
          nonce,
          drop nonce_len body,
          ap₂ (λ s b. record { kind = aead; scheme = s; version = v; body = b })
                (sym (scheme_u16-scheme_from_u16 scheme16 scheme known)) (sym whole)
              ∙ ap
                  (λ t. record {
                    kind = aead;
                    scheme = scheme_u16 scheme;
                    version = t;
                    body = nonce ++ drop nonce_len body;
                  })
                  ((==_iff v version).0 good),
          rw nonce_is (omega (arith, length-take nonce_len body)),
          rw rest_is at (or_err-ok _ auth_failed h''),
        )
  ]

  -- What opens is an envelope of this format whose body the cipher authenticated: its kind, version
  -- and scheme are known ones, and its nonce has 12 bytes.
  pub open_sealed-ok :
      (key aad envelope plain : Bytes)
      → All IsByte envelope
      → open_sealed cipher key aad envelope ≡ ok plain
      → (scheme : AeadScheme) × (nonce : Bytes) × (sealed : Bytes) × (envelope
          ≡ encode (sealed_envelope cipher scheme nonce sealed))
        × (length nonce ≡ nonce_len)
        × (open_in_place scheme key nonce aad sealed ≡ some plain)
  unfolding open_sealed Opened
  open_sealed-ok key aad envelope plain bytes h =
      let (env, decoded, opened) = chain_ok (decode envelope) _ h in
      let (scheme, nonce, sealed, shape, size, plain_is) =
        open_body key aad env.kind env.scheme env.version env.body plain opened in
      (
        scheme,
        nonce,
        sealed,
        sym (encode-decode envelope env bytes decoded) ∙ ap encode shape,
        size,
        plain_is,
      )
