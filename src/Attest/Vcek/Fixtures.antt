-- ===== src/Attest/Vcek/Fixtures.antt =====
-- Sample certificates, and a stand-in for the parsers and the signature check.
use secgit.Prelude.{true, some, List, [], ◌∷◌, Bytes, codes}
use secgit.Attest.Vcek.{Certificate, CertificateList, CertificateLibrary}

abbrev pub point : Bytes
point =
    4 ∷ 0 ∷ 0 ∷ 0 ∷ 0 ∷ 0 ∷ 0 ∷ 0 ∷ 0 ∷ 0 ∷ 0 ∷ 0 ∷ 0 ∷ 0 ∷ 0 ∷ 0 ∷ 0 ∷ 0 ∷ 0 ∷ 0 ∷ 0 ∷ 0 ∷ 0 ∷ 0
    ∷ 0 ∷ 0 ∷ 0 ∷ 0 ∷ 0 ∷ 0 ∷ 0 ∷ 0 ∷ 0 ∷ 0 ∷ 0 ∷ 0 ∷ 0 ∷ 0 ∷ 0 ∷ 0 ∷ 0 ∷ 0 ∷ 0 ∷ 0 ∷ 0 ∷ 0 ∷ 0 ∷ 0
    ∷ 0 ∷ 0 ∷ 0 ∷ 0 ∷ 0 ∷ 0 ∷ 0 ∷ 0 ∷ 0 ∷ 0 ∷ 0 ∷ 0 ∷ 0 ∷ 0 ∷ 0 ∷ 0 ∷ 0 ∷ 0 ∷ 0 ∷ 0 ∷ 0 ∷ 0 ∷ 0 ∷ 0
    ∷ 0 ∷ 0 ∷ 0 ∷ 0 ∷ 0 ∷ 0 ∷ 0 ∷ 0 ∷ 0 ∷ 0 ∷ 0 ∷ 0 ∷ 0 ∷ 0 ∷ 0 ∷ 0 ∷ 0 ∷ 0 ∷ 0 ∷ 0 ∷ 0 ∷ 0 ∷ 0 ∷ 0
    ∷ 0 ∷ []

-- One certificate serves as root, ASK and VCEK; its text and its revocation list are stand-ins.
abbrev pub cert : Certificate
cert = record {
  signature_algorithm = "1.2.840.113549.1.1.10";
  issuer = "amd";
  subject = "amd";
  spki_algorithm = "1.2.840.10045.2.1";
  public_key = point;
  tbs = some (1 ∷ []);
  sig = 2 ∷ [];
  serial_number = 5 ∷ [];
}

abbrev pub crl : CertificateList
crl = record {
  signature_algorithm = "1.2.840.113549.1.1.10";
  issuer = "amd";
  tbs = some (1 ∷ []);
  sig = 2 ∷ [];
  revoked_certificates = some ((6 ∷ []) ∷ []);
  next_update = some 100;
}

abbrev pub pem_lines : List Bytes
pem_lines = codes "BEGIN CERTIFICATE" ∷ (codes "AA" ∷ (codes "END CERTIFICATE" ∷ []))

abbrev pub toy_library : CertificateLibrary
toy_library = record {
  from_der = λ der. some cert;
  from_pem = λ pem. some cert;
  crl_from_der = λ der. some crl;
  from_utf8_lossy = λ b. b;
  lines = λ b. pem_lines;
  rsa_verify = λ k tbs sig. true;
  ark_pem = λ product. [];
  hex_encode = λ b. "00";
  decimal = λ n. "0";
}
