-- ===== src/Crypto/Signature/RoundTrip.antt =====
-- sig.rs: what a key signs verifies, and what verifies is signed by both halves.
use secgit.Prelude.{
  ℕ, ◌^◌, ◌<◌, length, drop, ◌≡◌, refl, ap, sym, ◌∙◌, true, Option, some, [], ◌++◌, Bytes, arith,
  append_assoc, append-nil, ◌==◌, ==_iff, Bool-cases, inl, inr,
}
use secgit.Prelude.Words.{from_le}
use secgit.Crypto.Error.{
  backend, ok, chain_ok, ok_same, Kind, aead, wrapped_key, signature, SigScheme, ed25519_ml_dsa65,
  ed25519_ml_dsa87, sig_u16, sig_from_u16, sig_from_u16-sig_u16,
}
use secgit.Crypto.Envelope.{Envelope, decode, decode-encode}
use secgit.Crypto.Framing.{
  new_writer, put_lp32, new_reader, read_lp32, lp32_text, read_lp32_at, read_lp32_splits,
}
use secgit.Crypto.Aead.{or_err}
use secgit.Crypto.Aead.RoundTrip.{or_err-ok}
use secgit.Crypto.Signature.{
  SignatureLibrary, Param, MlDsaKey, SigningKey, VerifyingKey, version, param_for, is_signature,
  verifying_key, mldsa_from_seed, mldsa_generate, generate, sign, verify_halves, verify_envelope,
  verify,
}

sig_u16-sig_from_u16 : (v : ℕ) (s : SigScheme) → sig_from_u16 v ≡ ok s → sig_u16 s ≡ v
unfolding sig_from_u16 sig_u16
sig_u16-sig_from_u16 v s h = ground arith

sig_u16-lt : (s : SigScheme) → sig_u16 s < 2 ^ 16
unfolding sig_u16
sig_u16-lt ed25519_ml_dsa65 = omega arith
sig_u16-lt ed25519_ml_dsa87 = omega arith

-- The text of two length-prefixed fields.
two_fields :
    (a b : Bytes) → (put_lp32 (put_lp32 new_writer a) b).buf ≡ lp32_text a ++ (lp32_text b ++ [])
unfolding put_lp32 new_writer
two_fields a b = simp (append_assoc, append-nil)

module _ (lib : SignatureLibrary) where
  open lib use {ed_public, ed_sign, ed_verify, dsa_public, dsa_sign, dsa_verify}

  -- The public halves that a key holds are those of its private halves.
  pub record IsPaired (key : SigningKey) : Type 0 where
    pub ed : ed_public key.ed ≡ some key.ed_pub
    pub dsa : dsa_public (param_for key.scheme) key.mldsa.seed ≡ some key.mldsa.public_bytes
    pub param : key.mldsa.param ≡ param_for key.scheme

  mldsa_from_seed-ok :
      (param : Param) (seed : Bytes) (key : MlDsaKey)
      → mldsa_from_seed lib param seed ≡ ok key
      → (dsa_public param seed ≡ some key.public_bytes) × (key.param ≡ param) × (key.seed ≡ seed)
  unfolding mldsa_from_seed
  mldsa_from_seed-ok param seed key h =
      let (public, found, made) = chain_ok (or_err (dsa_public param seed) backend) _ h in
      rw (← ok_same made) (or_err-ok _ backend found, refl, refl)

  pub generate-IsPaired :
      (scheme : SigScheme) (drawn_pair drawn_seed : Option Bytes) (key : SigningKey)
      → generate lib scheme drawn_pair drawn_seed ≡ ok key
      → IsPaired key
  unfolding generate mldsa_generate
  generate-IsPaired scheme drawn_pair drawn_seed key h =
      let (pair, drew, h1) = chain_ok (or_err drawn_pair backend) _ h in
      let (ed_pub, public, h2) = chain_ok (or_err (ed_public pair) backend) _ h1 in
      let (mldsa, seeded, h3) = chain_ok (mldsa_generate lib (param_for scheme) drawn_seed) _ h2 in
      let (seed, drew_seed, made) = chain_ok (or_err drawn_seed backend) _ seeded in
      let (found, param, same) = mldsa_from_seed-ok (param_for scheme) seed mldsa made in
      rw (← ok_same h3)
        (record { ed = or_err-ok _ backend public; dsa = rw same found; param = param })

  pub generate-scheme :
      (scheme : SigScheme) (drawn_pair drawn_seed : Option Bytes) (key : SigningKey)
      → generate lib scheme drawn_pair drawn_seed ≡ ok key
      → key.scheme ≡ scheme
  unfolding generate
  generate-scheme scheme drawn_pair drawn_seed key h =
      let (pair, drew, h1) = chain_ok (or_err drawn_pair backend) _ h in
      let (ed_pub, public, h2) = chain_ok (or_err (ed_public pair) backend) _ h1 in
      let (mldsa, seeded, h3) = chain_ok (mldsa_generate lib (param_for scheme) drawn_seed) _ h2 in
      sym (ap (λ k. k.scheme) (ok_same h3))

  -- What verification found when it accepted an envelope.
  pub record Accepted (vk : VerifyingKey) (msg : Bytes) (env : Envelope) : Type 0 where
    pub scheme : SigScheme
    pub ed_sig : Bytes
    pub mldsa_sig : Bytes
    pub ed_len : Bytes
    pub mldsa_len : Bytes
    pub rest : Bytes
    pub body : env.body ≡ ed_len ++ (ed_sig ++ (mldsa_len ++ (mldsa_sig ++ rest)))
    pub ed_framed : (length ed_len ≡ 4) × (from_le ed_len ≡ length ed_sig)
    pub mldsa_framed : (length mldsa_len ≡ 4) × (from_le mldsa_len ≡ length mldsa_sig)
    pub kind : env.kind ≡ signature
    pub version_known : env.version ≡ version
    pub pinned : env.scheme ≡ vk.scheme
    pub known : vk.scheme ≡ sig_u16 scheme
    pub ed : ed_verify vk.ed25519_pub msg ed_sig ≡ true
    pub dsa : dsa_verify (param_for scheme) vk.mldsa_pub msg mldsa_sig ≡ true

  accepts_halves :
      (vk : VerifyingKey) (msg : Bytes) (scheme : SigScheme) (ed_sig mldsa_sig : Bytes)
      → verify_halves lib vk msg scheme ed_sig mldsa_sig ≡ ok tt
      → (ed_verify vk.ed25519_pub msg ed_sig ≡ true)
        × (dsa_verify (param_for scheme) vk.mldsa_pub msg mldsa_sig ≡ true)
  unfolding verify_halves
  accepts_halves vk msg scheme ed_sig mldsa_sig h = (ground arith, ground arith)

  accepts :
      (vk : VerifyingKey) (msg : Bytes) (kind : Kind) (scheme16 v : ℕ) (body : Bytes)
      → verify_envelope lib vk msg
          (record { kind = kind; scheme = scheme16; version = v; body = body })
        ≡ ok tt
      → Accepted vk msg (record { kind = kind; scheme = scheme16; version = v; body = body })
  unfolding verify_envelope is_signature new_reader
  accepts vk msg aead scheme16 v body h = cc
  accepts vk msg wrapped_key scheme16 v body h = cc
  accepts vk msg signature scheme16 v body h = elim (Bool-cases (v == version)) [
    | inr bad ↦ absurd (cc (rw bad at h))
    | inl good ↦ elim (Bool-cases (scheme16 == vk.scheme)) [
      | inr bad ↦ absurd (cc (rw (good, bad) at h))
      | inl pinned ↦
          let (scheme, known, h1) = chain_ok (sig_from_u16 scheme16) _ (rw (good, pinned) at h) in
          let ((ed_sig, r), one, h2) = chain_ok (read_lp32 (new_reader body)) _ h1 in
          let ((mldsa_sig, end), two, h3) = chain_ok (read_lp32 r) _ h2 in
          let (ed_len, ed_four, ed_size, before) =
            read_lp32_splits (new_reader body) ed_sig r one in
          let (mldsa_len, mldsa_four, mldsa_size, after) = read_lp32_splits r mldsa_sig end two in
          let both = accepts_halves vk msg scheme ed_sig mldsa_sig h3 in
          record {
            scheme = scheme;
            ed_sig = ed_sig;
            mldsa_sig = mldsa_sig;
            ed_len = ed_len;
            mldsa_len = mldsa_len;
            rest = drop end.pos end.buf;
            body = before ∙ ap (λ t. ed_len ++ (ed_sig ++ t)) after;
            ed_framed = (ed_four, ed_size);
            mldsa_framed = (mldsa_four, mldsa_size);
            kind = refl;
            version_known = (==_iff v version).0 good;
            pinned = (==_iff scheme16 vk.scheme).0 pinned;
            known =
                sym ((==_iff scheme16 vk.scheme).0 pinned)
                ∙ sym (sig_u16-sig_from_u16 scheme16 scheme known);
            ed = both.0;
            dsa = both.1;
          }
    ]
  ]

  verify_halves_lem :
      (key : SigningKey) (msg mldsa_sig : Bytes)
      → IsPaired key
      → dsa_sign key.mldsa.param key.mldsa.seed msg ≡ some mldsa_sig
      → verify_halves lib (verifying_key key) msg key.scheme (ed_sign key.ed msg) mldsa_sig ≡ ok tt
  unfolding verify_halves verifying_key
  verify_halves_lem key msg mldsa_sig p signed =
      rw
        (
          lib.ed-verify key.ed key.ed_pub msg p.ed,
          lib.dsa-verify (param_for key.scheme) key.mldsa.seed key.mldsa.public_bytes msg mldsa_sig
              p.dsa (rw (← p.param) signed),
        )
        refl

  abbrev envelope_of : SigningKey → Bytes → Bytes → Envelope
  envelope_of key msg mldsa_sig = record {
    kind = signature;
    scheme = sig_u16 key.scheme;
    version = version;
    body = (put_lp32 (put_lp32 new_writer (ed_sign key.ed msg)) mldsa_sig).buf;
  }

  verify_envelope_lem :
      (key : SigningKey) (msg mldsa_sig : Bytes)
      → IsPaired key
      → dsa_sign key.mldsa.param key.mldsa.seed msg ≡ some mldsa_sig
      → verify_envelope lib (verifying_key key) msg (envelope_of key msg mldsa_sig) ≡ ok tt
  unfolding verify_envelope is_signature new_reader verifying_key
  verify_envelope_lem key msg mldsa_sig p signed =
      let ed_sig = ed_sign key.ed msg in
      let first = read_lp32_at [] ed_sig (lp32_text mldsa_sig ++ []) (lib.ed_short key.ed msg) in
      let second =
        read_lp32_at (lp32_text ed_sig) mldsa_sig []
          (lib.dsa_short key.mldsa.param key.mldsa.seed msg mldsa_sig signed) in
      let pinned : (sig_u16 key.scheme == sig_u16 key.scheme) ≡ true = (==_iff _ _).1 refl in
      rw (pinned, sig_from_u16-sig_u16 key.scheme, two_fields ed_sig mldsa_sig, first, second)
        (verify_halves_lem key msg mldsa_sig p signed)

  -- A message that a generated key signed verifies against the key's public halves.
  pub verify-sign :
      (scheme : SigScheme) (drawn_pair drawn_seed : Option Bytes) (key : SigningKey)
      (msg envelope : Bytes)
      → generate lib scheme drawn_pair drawn_seed ≡ ok key
      → sign lib key msg ≡ ok envelope
      → verify lib (verifying_key key) msg envelope ≡ ok tt
  unfolding sign verify verify_envelope is_signature
  verify-sign scheme drawn_pair drawn_seed key msg envelope made signed =
      let p = generate-IsPaired scheme drawn_pair drawn_seed key made in
      let (mldsa_sig, got, encoded) =
        chain_ok (or_err (dsa_sign key.mldsa.param key.mldsa.seed msg) backend) _ signed in
      rw (← ok_same encoded, decode-encode (envelope_of key msg mldsa_sig) (sig_u16-lt key.scheme))
        (verify_envelope_lem key msg mldsa_sig p (or_err-ok _ backend got))

  -- What verifies is a signature envelope of the pinned scheme whose body starts with two fields,
  -- each behind four bytes that are its length; the first verifies as the Ed25519 signature and the
  -- second as the ML-DSA signature, under the pinned public keys.
  pub verify-Accepted :
      (vk : VerifyingKey) (msg envelope : Bytes)
      → verify lib vk msg envelope ≡ ok tt
      → (env : Envelope) × (decode envelope ≡ ok env) × Accepted vk msg env
  unfolding verify
  verify-Accepted vk msg envelope h =
      let (env, decoded, accepted) = chain_ok (decode envelope) _ h in
      (env, decoded, accepts vk msg env.kind env.scheme env.version env.body accepted)
