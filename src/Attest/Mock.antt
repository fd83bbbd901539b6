-- ===== src/Attest/Mock.antt =====
-- crates/secgit-attest/src/mock.rs: the software attester and its verifier.
-- JSON, hex and HMAC-SHA256 are the record `MockLibrary`.
pub mod Tests
use secgit.Prelude.{
  ◌≡◌, refl, ap, sym, ◌∙◌, Bool, true, false, not, Option, none, some, [], ◌++◌, Bytes, codes,
  length, bytes_eq, bytes_eq_iff, bytes_eq_refl, ◌==◌, ==_iff, if◌then◌else◌, Bool-cases, inl, inr,
  arith,
}
use secgit.Attest.{
  AttestError, malformed, rejected, report_data_mismatch, measurement_not_allowed, Result, ok, err,
  ◌>>=◌, or_else, Backend, mock, sev_snp, tdx, ReportData, Evidence, mock_facts, Claims, Policy,
  measurement_allowed, Attester, Verifier, chain_ok,
}
use secgit.Crypto.Primitives.{ct_eq}
use secgit.Crypto.Primitives.Equality.{ct_eq_iff}

pub record MockReport : Type 0 where
  pub measurement : Bytes
  pub report_data : Bytes
  pub mac : Bytes

-- What the code relies on: a report is read back from its JSON, and bytes from their hex text.
pub record MockLibrary : Type 0 where
  pub to_vec : MockReport → Option Bytes
  pub from_slice : Bytes → Option MockReport
  pub hex_encode : Bytes → Bytes
  pub hex_decode : Bytes → Option Bytes
  pub hmac : Bytes → Bytes → Bytes
  pub from_slice-to_vec :
      (r : MockReport) (bytes : Bytes) → to_vec r ≡ some bytes → from_slice bytes ≡ some r
  pub hex_decode-hex_encode : (b : Bytes) → hex_decode (hex_encode b) ≡ some b

is_mock : Backend → Bool
is_mock mock = true
is_mock _ = false

module _ (lib : MockLibrary) where
  open lib use {to_vec, from_slice, hex_encode, hex_decode, hmac}

  mac_over : Bytes → Bytes → Bytes
  mac_over measurement report_data =
      hmac (codes "secgit-mock-tee-development-key-DO-NOT-USE-IN-PROD") (measurement ++ report_data)

  -- The argument is the attester's own measurement.
  pub get_evidence : Bytes → Attester
  unfolding mac_over
  get_evidence measurement report_data = do
    bytes ←
        or_else
          (to_vec (record {
            measurement = hex_encode measurement;
            report_data = hex_encode report_data;
            mac = hex_encode (mac_over measurement report_data);
          }))
          (malformed "mock encode")
    ok (record { backend = mock; report = bytes; runtime_pubkey = [] })

  check_fields : Bytes → Bytes → Bytes → ReportData → Policy → Result Claims
  unfolding mac_over
  check_fields measurement rd mac expected policy =
      if not (ct_eq mac (mac_over measurement rd))
      then err (rejected "mock mac mismatch")
      else if not (bytes_eq rd expected)
      then err report_data_mismatch
      else if policy.require_vendor_root
      then err (rejected "mock cannot satisfy vendor-root policy")
      else if not (measurement_allowed policy measurement)
      then err measurement_not_allowed
      else ok (record {
        backend = mock;
        measurement = measurement;
        report_data = rd;
        vendor_verified = false;
        extra = mock_facts;
      })

  check_sized : Bytes → Bytes → Bytes → ReportData → Policy → Result Claims
  unfolding check_fields
  check_sized measurement rd mac_text expected policy =
      if not (length rd == 64) then err (malformed "mock report_data len") else do
        mac ← or_else (hex_decode mac_text) (malformed "mock mac")
        check_fields measurement rd mac expected policy

  check_report : Bytes → ReportData → Policy → Result Claims
  unfolding check_sized
  check_report bytes expected policy = do
    report ← or_else (from_slice bytes) (malformed "mock decode")
    measurement ← or_else (hex_decode report.measurement) (malformed "mock measurement")
    rd ← or_else (hex_decode report.report_data) (malformed "mock report_data")
    check_sized measurement rd report.mac expected policy

  pub verify : Verifier
  unfolding is_mock check_report
  verify evidence expected policy =
      if not (is_mock evidence.backend)
      then err (malformed "not mock evidence")
      else check_report evidence.report expected policy

  -- The evidence that the mock attester gives of 64 bytes of report data fails for other report
  -- data, under a policy that asks for a vendor root, and with a measurement that the policy does
  -- not allow; otherwise it verifies, with the attester's measurement and no vendor's word.
  pub verify-get_evidence :
      (measurement : Bytes) (rd expected : ReportData) (policy : Policy) (evidence : Evidence)
      → length rd ≡ 64
      → get_evidence measurement rd ≡ ok evidence
      → verify evidence expected policy ≡ (
          if not (bytes_eq rd expected)
          then err report_data_mismatch
          else if policy.require_vendor_root
          then err (rejected "mock cannot satisfy vendor-root policy")
          else if not (measurement_allowed policy measurement)
          then err measurement_not_allowed
          else ok (record {
            backend = mock;
            measurement = measurement;
            report_data = rd;
            vendor_verified = false;
            extra = mock_facts;
          }))
  unfolding get_evidence verify check_report check_sized check_fields is_mock
  verify-get_evidence measurement rd expected policy evidence size made =
      let report : MockReport = record {
        measurement = hex_encode measurement;
        report_data = hex_encode rd;
        mac = hex_encode (mac_over measurement rd);
      } in
      let (bytes, encoded, same) =
        chain_ok (or_else (to_vec report) (malformed "mock encode")) _ made in
      let evidence_is : record { backend = mock; report = bytes; runtime_pubkey = [] } ≡ evidence =
        cc in
      let written : to_vec report ≡ some bytes = or_else-written (to_vec report) encoded in
      let decoded = lib.from_slice-to_vec report bytes written in
      rw
        (
          ← evidence_is,
          decoded,
          lib.hex_decode-hex_encode measurement,
          lib.hex_decode-hex_encode rd,
          (==_iff (length rd) 64).1 size,
          lib.hex_decode-hex_encode (mac_over measurement rd),
          (ct_eq_iff (mac_over measurement rd) (mac_over measurement rd)).1 refl,
        )
        refl
    where
      or_else-written :
          (o : Option Bytes) {b : Bytes} → or_else o (malformed "mock encode") ≡ ok b → o ≡ some b
      or_else-written none e = cc
      or_else-written (some x) e = cc
