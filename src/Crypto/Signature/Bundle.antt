-- ===== src/Crypto/Signature/Bundle.antt =====
-- sig.rs: a signing key comes back from its bundle.
use secgit.Prelude.{◌≡◌, refl, ap, Option, some, Bytes}
use secgit.Crypto.Error.{ok, chain_ok, ok_same, SigScheme, sig_u16, sig_from_u16-sig_u16}
use secgit.Crypto.Aead.{or_err}
use secgit.Crypto.Signature.{
  SignatureLibrary, SigningKey, SigningKeyBundle, mldsa_from_seed, generate, generate_with_bundle,
  from_bundle,
}
use secgit.Crypto.Signature.RoundTrip.{IsPaired, generate-IsPaired, generate-scheme}

module _ (lib : SignatureLibrary) (hex_encode : Bytes → Bytes)
    (hex_decode : Bytes → Option Bytes) where
  restore :
      (key : SigningKey)
      → ((b : Bytes) → hex_decode (hex_encode b) ≡ some b)
      → IsPaired lib key
      → from_bundle lib hex_encode hex_decode (record {
        scheme = sig_u16 key.scheme;
        ed25519_pkcs8_hex = hex_encode key.ed;
        mldsa_seed_hex = hex_encode key.mldsa.seed;
      })
        ≡ ok key
  unfolding from_bundle mldsa_from_seed or_err
  restore key hex p =
      rw (sig_from_u16-sig_u16 key.scheme, hex key.ed, hex key.mldsa.seed, p.ed, p.dsa, ← p.param)
        refl

  -- The bundle that is made with a key restores that key, scheme and public halves included.
  pub from_bundle-generate_with_bundle :
      (scheme : SigScheme) (drawn_pair drawn_seed : Option Bytes) (key : SigningKey)
      (bundle : SigningKeyBundle)
      → ((b : Bytes) → hex_decode (hex_encode b) ≡ some b)
      → generate_with_bundle lib hex_encode hex_decode scheme drawn_pair drawn_seed
        ≡ ok (key, bundle)
      → from_bundle lib hex_encode hex_decode bundle ≡ ok key
  unfolding generate_with_bundle
  from_bundle-generate_with_bundle scheme drawn_pair drawn_seed key bundle hex h =
      let (made, generated, same) = chain_ok (generate lib scheme drawn_pair drawn_seed) _ h in
      let p = generate-IsPaired lib scheme drawn_pair drawn_seed made generated in
      let e = generate-scheme lib scheme drawn_pair drawn_seed made generated in
      let k : made ≡ key = ap (λ t. t.0) (ok_same same) in
      rw (← ap (λ t. t.1) (ok_same same), ← k, ← e) (restore made hex p)
