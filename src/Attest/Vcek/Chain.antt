-- ===== src/Attest/Vcek/Chain.antt =====
-- vcek.rs: the chain that is checked.
use secgit.Prelude.{
  ◌≡◌, String, true, some, Bytes, length, str_eq, eq_iff, Bool-cases, inl, inr, arith,
}
use secgit.Attest.{AttestError, ok, or_else, or_else-ok, chain_ok}
use secgit.Attest.Snp.{VcekKey, byte_at}
use secgit.Attest.Vcek.{
  Product, Certificate, CertificateLibrary, oid_rsassa_pss, issuer_matches_subject, ec_p384_vcek,
  parse_cert_pem, check_signature, rsa_pss_sha384_signed_by, check_issuer, verify_vcek,
}

module _ (lib : CertificateLibrary) where
  open lib use {rsa_verify}

  -- A certificate whose signature, in the scheme that AMD uses, verifies under the issuer's key.
  pub SignedBy : Certificate → Certificate → Type 0
  SignedBy issuer child =
      (str_eq child.signature_algorithm oid_rsassa_pss ≡ true)
      × (tbs : Bytes) × (child.tbs ≡ some tbs)
      × (rsa_verify issuer.public_key tbs child.sig ≡ true)

  -- A chain from the pinned root: each certificate names its issuer and is signed by it, and the
  -- key is the last one's, an uncompressed point of P-384.
  pub record IsChain (product : Product) (ask vcek : Certificate) (key : VcekKey) : Type 0 where
    pub ark : Certificate
    pub pinned : lib.from_pem (lib.ark_pem product) ≡ some ark
    pub root : SignedBy ark ark
    pub named : ask.issuer ≡ ark.subject
    pub signed : SignedBy ark ask
    pub leaf_named : vcek.issuer ≡ ask.subject
    pub leaf_signed : SignedBy ask vcek
    pub point : key.sec1_uncompressed ≡ vcek.public_key
    pub uncompressed : byte_at vcek.public_key 0 ≡ 4
    pub long : length vcek.public_key ≡ 97

  pub check_signature-ok :
      (k tbs sig : Bytes) (e : AttestError)
      → check_signature lib k tbs sig e ≡ ok tt
      → rsa_verify k tbs sig ≡ true
  unfolding check_signature
  check_signature-ok k tbs sig e h = elim (Bool-cases (rsa_verify k tbs sig)) [
    | inl good ↦ good
    | inr bad ↦ absurd (cc (rw bad at h))
  ]

  rsa_pss-SignedBy :
      (issuer child : Certificate)
      → rsa_pss_sha384_signed_by lib issuer child ≡ ok tt
      → SignedBy issuer child
  unfolding rsa_pss_sha384_signed_by SignedBy
  rsa_pss-SignedBy issuer child h =
      elim (Bool-cases (str_eq child.signature_algorithm oid_rsassa_pss)) [
        | inr bad ↦ absurd (cc (rw bad at h))
        | inl good ↦
            let (tbs, encoded, h1) = chain_ok (or_else child.tbs _) _ (rw good at h) in
            (good, tbs, or_else-ok child.tbs _ encoded, check_signature-ok _ tbs child.sig _ h1)
      ]

  check_issuer-ok :
      (issuer child : Certificate) (e : AttestError)
      → check_issuer lib issuer child e ≡ ok tt
      → child.issuer ≡ issuer.subject
  unfolding check_issuer issuer_matches_subject
  check_issuer-ok issuer child e h = elim (Bool-cases (str_eq child.issuer issuer.subject)) [
    | inl good ↦ (eq_iff child.issuer issuer.subject).0 good
    | inr bad ↦ absurd (cc (rw bad at h))
  ]

  ec_p384_vcek-ok :
      (oid : String) (point : Bytes) (key : VcekKey)
      → ec_p384_vcek oid point ≡ ok key
      → (key.sec1_uncompressed ≡ point) × (byte_at point 0 ≡ 4) × (length point ≡ 97)
  unfolding ec_p384_vcek
  ec_p384_vcek-ok oid point key h = (ground arith, ground arith, ground arith)

  -- A chain that validates runs from the pinned root of the product, itself validly signed, over
  -- the ASK to the VCEK: each is named and signed by the one before, and the key returned is the
  -- VCEK's point.
  pub verify_vcek-IsChain :
      (product : Product) (ask vcek : Certificate) (key : VcekKey)
      → verify_vcek lib product ask vcek ≡ ok key
      → IsChain product ask vcek key
  unfolding verify_vcek parse_cert_pem
  verify_vcek-IsChain product ask vcek key h =
      let (ark, pinned, h1) = chain_ok (parse_cert_pem lib (lib.ark_pem product)) _ h in
      let (u, root, h2) = chain_ok (rsa_pss_sha384_signed_by lib ark ark) _ h1 in
      let (u, named, h3) = chain_ok (check_issuer lib ark ask _) _ h2 in
      let (u, signed, h4) = chain_ok (rsa_pss_sha384_signed_by lib ark ask) _ h3 in
      let (u, named', h5) = chain_ok (check_issuer lib ask vcek _) _ h4 in
      let (u, signed', h6) = chain_ok (rsa_pss_sha384_signed_by lib ask vcek) _ h5 in
      let (point, first, long) = ec_p384_vcek-ok vcek.spki_algorithm vcek.public_key key h6 in
      record {
        ark = ark;
        pinned = or_else-ok (lib.from_pem (lib.ark_pem product)) _ pinned;
        root = rsa_pss-SignedBy ark ark root;
        named = check_issuer-ok ark ask _ named;
        signed = rsa_pss-SignedBy ark ask signed;
        leaf_named = check_issuer-ok ask vcek _ named';
        leaf_signed = rsa_pss-SignedBy ask vcek signed';
        point = point;
        uncompressed = first;
        long = long;
      }
