-- ===== src/Attest/Snp/Safety.antt =====
-- snp.rs: what verification has checked of the evidence that it accepts.
use secgit.Prelude.{◌≡◌, Bool, true, some, Bytes}
use secgit.Attest.{ok, ReportData, Evidence, Claims, Policy, measurement_allowed, vmpl_allowed}
use secgit.Attest.Snp.{
  SnpReport, VcekKey, SnpVerifier, parse_report, find_vcek, verify_report_signature,
}

-- A key that the verifier holds, or that its resolver gave for the report's chip and TCB.
pub Resolved : SnpVerifier → SnpReport → VcekKey → Type 0
Resolved v report key = find_vcek v.vcek v.resolver report ≡ ok (some key)

module _ (p384_verify : Bytes → Bytes → Bytes → Bool) where
  -- What verification found in a report that it accepted.
  pub record IsTrusted (v : SnpVerifier) (evidence : Evidence) (expected : ReportData)
      (policy : Policy) (claims : Claims) : Type 0 where
    pub report : SnpReport
    pub parsed : parse_report evidence.report ≡ ok report
    pub bound : report.report_data ≡ expected
    pub vmpl : vmpl_allowed policy report.vmpl ≡ true
    pub measurement : measurement_allowed policy report.measurement ≡ true
    pub measured : claims.measurement ≡ report.measurement
    pub vouched :
        claims.vendor_verified ≡ true
        → (key : VcekKey) × Resolved v report key
          × (verify_report_signature p384_verify report key ≡ true)
    pub required : policy.require_vendor_root ≡ true → claims.vendor_verified ≡ true
