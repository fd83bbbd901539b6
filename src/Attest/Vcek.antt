-- ===== src/Attest/Vcek.antt =====
-- crates/secgit-attest/src/vcek.rs: the chain from AMD's pinned root to a chip's key, revocation,
-- and the offline cache.
-- Certificates are what the code reads of them (x509-cert); their parsers, the signature checks,
-- hex and decimal are the record `CertificateLibrary`. The cache's directory holds each file with
-- its time; the clock and the writes that fail are its fields.
pub mod Pem
pub mod Chain
pub mod Cache
pub mod Resolve
pub mod Fixtures
pub mod Tests
use Prim.Native.String.{◌++◌ as join}
use secgit.Prelude.{
  ℕ, zero, suc, ◌≡◌, refl, ◌+◌, ◌-◌, ◌*◌, ◌^◌, min, String, Bool, true, false, not, ◌&&◌, ◌||◌,
  Option, none, some, List, [], ◌∷◌, ◌++◌, map, Bytes, codes, length, take, any, bytes_eq, str_eq,
  ltb, leb, ◌==◌, if◌then◌else◌,
}
use secgit.Prelude.Maps.{Map, lookup, insert}
use secgit.Prelude.Words.{le_bytes}
use secgit.Attest.{AttestError, malformed, rejected, io, Result, ok, err, ◌>>=◌, or_else}
use secgit.Attest.Snp.{VcekKey, byte_at}

pub data Product : Type 0 where
  milan genoa : Product

pub as_str : Product → String
as_str milan = "Milan"
as_str genoa = "Genoa"

pub record Tcb : Type 0 where
  pub bootloader : ℕ
  pub tee : ℕ
  pub snp : ℕ
  pub microcode : ℕ

pub from_reported : ℕ → Tcb
from_reported reported_tcb =
    let b = le_bytes 8 reported_tcb in
    record {
      bootloader = byte_at b 0;
      tee = byte_at b 1;
      snp = byte_at b 6;
      microcode = byte_at b 7;
    }

pub record RevocationConfig : Type 0 where
  pub enabled : Bool
  pub max_crl_age_secs : ℕ

pub default_revocation : RevocationConfig
default_revocation = record { enabled = true; max_crl_age_secs = 24 * 3600 }

-- The parts of a certificate that the code reads; `tbs` is `none` where re-encoding fails.
pub record Certificate : Type 0 where
  pub signature_algorithm : String
  pub issuer : String
  pub subject : String
  pub spki_algorithm : String
  pub public_key : Bytes
  pub tbs : Option Bytes
  pub sig : Bytes
  pub serial_number : Bytes

pub record CertificateList : Type 0 where
  pub signature_algorithm : String
  pub issuer : String
  pub tbs : Option Bytes
  pub sig : Bytes
  pub revoked_certificates : Option (List Bytes)
  pub next_update : Option ℕ

-- What the code calls; `from_reported` needs none of it.
pub record CertificateLibrary : Type 0 where
  pub from_der : Bytes → Option Certificate
  pub from_pem : Bytes → Option Certificate
  pub crl_from_der : Bytes → Option CertificateList
  pub from_utf8_lossy : Bytes → Bytes
  pub lines : Bytes → List Bytes
  pub rsa_verify : Bytes → Bytes → Bytes → Bool
  pub ark_pem : Product → Bytes
  pub hex_encode : Bytes → String
  pub decimal : ℕ → String

abbrev oid_rsassa_pss : String
oid_rsassa_pss = "1.2.840.113549.1.1.10"

abbrev oid_ec_public_key : String
oid_ec_public_key = "1.2.840.10045.2.1"

issuer_matches_subject : Certificate → Certificate → Bool
issuer_matches_subject issuer child = str_eq child.issuer issuer.subject

ec_p384_vcek : String → Bytes → Result VcekKey
ec_p384_vcek alg_oid point =
    if not (str_eq alg_oid oid_ec_public_key)
    then err (rejected "VCEK leaf is not an EC public key")
    else if not (length point == 97) || not (byte_at point 0 == 4)
    then err (rejected "VCEK is not an uncompressed P-384 point")
    else ok (record { sec1_uncompressed = point })

serial_listed : Option (List Bytes) → Bytes → Bool
serial_listed none serial = false
serial_listed (some list) serial = any (λ rc. bytes_eq rc serial) list

pub serial_revoked : CertificateList → Bytes → Bool
unfolding serial_listed
serial_revoked crl serial = serial_listed crl.revoked_certificates serial

pub cached_crl_usable : ℕ → RevocationConfig → Bool
cached_crl_usable age_secs cfg = leb age_secs cfg.max_crl_age_secs

module _ (lib : CertificateLibrary) where
  open lib use {from_der, from_pem, crl_from_der, rsa_verify, ark_pem}

  pub parse_cert_der : Bytes → Result Certificate
  parse_cert_der der = or_else (from_der der) (malformed "invalid DER certificate")

  pub parse_cert_pem : Bytes → Result Certificate
  parse_cert_pem pem = or_else (from_pem pem) (malformed "invalid PEM certificate")

  pub check_signature : Bytes → Bytes → Bytes → AttestError → Result (Unit {0})
  check_signature public_key tbs sig e = if rsa_verify public_key tbs sig then ok tt else err e

  rsa_pss_sha384_signed_by : Certificate → Certificate → Result (Unit {0})
  unfolding check_signature
  rsa_pss_sha384_signed_by issuer child =
      if not (str_eq child.signature_algorithm oid_rsassa_pss)
      then err (rejected "certificate not signed with RSASSA-PSS")
      else do
        tbs ← or_else child.tbs (malformed "could not re-encode tbsCertificate")
        check_signature issuer.public_key tbs child.sig
            (rejected "certificate signature did not verify")

  check_issuer : Certificate → Certificate → AttestError → Result (Unit {0})
  unfolding issuer_matches_subject
  check_issuer issuer child e = if not (issuer_matches_subject issuer child) then err e else ok tt

  pub verify_vcek : Product → Certificate → Certificate → Result VcekKey
  unfolding parse_cert_pem rsa_pss_sha384_signed_by check_issuer ec_p384_vcek
  verify_vcek product ask vcek = do
    ark ← parse_cert_pem (ark_pem product)
    root ← rsa_pss_sha384_signed_by ark ark
    named ← check_issuer ark ask (rejected "ASK issuer does not match pinned ARK subject")
    signed ← rsa_pss_sha384_signed_by ark ask
    named' ← check_issuer ask vcek (rejected "VCEK issuer does not match ASK subject")
    signed' ← rsa_pss_sha384_signed_by ask vcek
    ec_p384_vcek vcek.spki_algorithm vcek.public_key

  crl_signed_by : Certificate → CertificateList → Result (Unit {0})
  unfolding check_signature
  crl_signed_by issuer crl =
      if not (str_eq crl.signature_algorithm oid_rsassa_pss)
      then err (rejected "CRL not signed with RSASSA-PSS")
      else if not (str_eq crl.issuer issuer.subject)
      then err (rejected "CRL issuer does not match ASK subject")
      else do
        tbs ← or_else crl.tbs (malformed "could not re-encode tbsCertList")
        check_signature issuer.public_key tbs crl.sig
            (rejected "CRL signature did not verify against ASK")
