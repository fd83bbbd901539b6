-- ===== src/Attest/Vcek/Resolve/Safety.antt =====
-- vcek.rs: what stands behind a key that was resolved, whatever the cache and the network held.
use secgit.Prelude.{ℕ, ◌+◌, ◌≤◌, ◌≡◌, ◌≢◌, List, All, String, Bool, true, some, Bytes}
use secgit.Attest.{Result}
use secgit.Attest.Vcek.{RevocationConfig, Certificate, CertificateList, CertificateLibrary}

module _ (lib : CertificateLibrary) (fetch : String → Result Bytes) where
  open lib use {rsa_verify}

  -- A revocation list that the issuer signed, at a time not further past its next update than the
  -- cache may be old, without the certificate on it.
  pub record IsUnrevoked (ask vcek : Certificate) (now : ℕ) (cfg : RevocationConfig) : Type 0 where
    pub crl : CertificateList
    pub tbs : Bytes
    pub named : crl.issuer ≡ ask.subject
    pub text : crl.tbs ≡ some tbs
    pub signed : rsa_verify ask.public_key tbs crl.sig ≡ true
    pub recent : (next : ℕ) → crl.next_update ≡ some next → now ≤ next + cfg.max_crl_age_secs
    pub unlisted :
        (list : List Bytes)
        → crl.revoked_certificates ≡ some list
        → All (λ serial. serial ≢ vcek.serial_number) list
