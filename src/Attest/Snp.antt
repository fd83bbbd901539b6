-- ===== src/Attest/Snp.antt =====
-- crates/secgit-attest/src/snp.rs: SEV-SNP reports, their fields and their verification.
-- The signature check of aws-lc-rs is the parameter `p384_verify`; reading `configfs-tsm` is not
-- modelled.
pub mod Layout
pub mod Safety
pub mod Tests
use secgit.Prelude.{
  ℕ, zero, suc, ◌≡◌, ◌+◌, ◌*◌, Bool, true, false, not, ◌&&◌, Option, none, some, [], ◌∷◌, ◌++◌,
  Bytes, length, take, drop, get_elem?, ltb, bytes_eq, if◌then◌else◌,
}
use secgit.Prelude.Words.{from_le}
use secgit.Attest.{
  AttestError, malformed, rejected, report_data_mismatch, measurement_not_allowed, vmpl_not_allowed,
  Result, ok, err, ◌>>=◌, Backend, mock, sev_snp, tdx, ReportData, Evidence, snp_facts, Claims,
  Policy, measurement_allowed, vmpl_allowed, Verifier,
}

abbrev report_min_len : ℕ
report_min_len = 672 + 512

pub record SnpReport : Type 0 where
  pub version : ℕ
  pub vmpl : ℕ
  pub report_data : Bytes
  pub measurement : Bytes
  pub host_data : Bytes
  pub reported_tcb : ℕ
  pub chip_id : Bytes
  pub signed_data : Bytes
  pub signature_be : Bytes

abbrev slice : ℕ → ℕ → Bytes → Bytes
slice off n bytes = take n (drop off bytes)

-- `field[i]`, on an index that the caller keeps within the field.
abbrev pub byte_at : Bytes → ℕ → ℕ
byte_at [] i = 0
byte_at (b ∷ bs) zero = b
byte_at (b ∷ bs) (suc i) = byte_at bs i

backwards : ℕ → Bytes → Bytes
backwards zero field = []
backwards (suc n) field = byte_at field n ∷ backwards n field

pub le_field_to_be : Bytes → Bytes
unfolding backwards
le_field_to_be field = backwards 48 field

pub signature_be : Bytes → Bytes
unfolding le_field_to_be
signature_be sig = le_field_to_be (slice 0 72 sig) ++ le_field_to_be (slice 72 72 sig)

pub parse_report : Bytes → Result SnpReport
unfolding signature_be
parse_report bytes =
    if ltb (length bytes) report_min_len
    then err (malformed "snp report too short")
    else ok (record {
      version = from_le (slice 0 4 bytes);
      vmpl = from_le (slice 48 4 bytes);
      report_data = slice 80 64 bytes;
      measurement = slice 144 48 bytes;
      host_data = slice 192 32 bytes;
      reported_tcb = from_le (slice 384 8 bytes);
      chip_id = slice 416 64 bytes;
      signed_data = take 672 bytes;
      signature_be = signature_be (slice 672 512 bytes);
    })

pub record VcekKey : Type 0 where
  pub sec1_uncompressed : Bytes

-- The resolver is a callback of the caller's.
pub record SnpVerifier : Type 0 where
  pub vcek : Option VcekKey
  pub resolver : Option (Bytes → ℕ → Result VcekKey)

pub with_vcek : VcekKey → SnpVerifier
with_vcek vcek = record { vcek = some vcek; resolver = none }

pub with_resolver : (Bytes → ℕ → Result VcekKey) → SnpVerifier
with_resolver resolver = record { vcek = none; resolver = some resolver }

-- The key to check a report with: the one held, or else what the resolver finds, if there is one.
find_vcek :
    Option VcekKey → Option (Bytes → ℕ → Result VcekKey) → SnpReport → Result (Option VcekKey)
find_vcek (some v) resolver report = ok (some v)
find_vcek none (some r) report = do v ← r report.chip_id report.reported_tcb; ok (some v)
find_vcek none none report = ok none

is_snp : Backend → Bool
is_snp sev_snp = true
is_snp _ = false

module _ (p384_verify : Bytes → Bytes → Bytes → Bool) where
  pub verify_report_signature : SnpReport → VcekKey → Bool
  verify_report_signature report vcek =
      p384_verify vcek.sec1_uncompressed report.signed_data report.signature_be

  signed_by : Option VcekKey → SnpReport → Bool
  unfolding verify_report_signature
  signed_by none report = false
  signed_by (some vcek) report = verify_report_signature report vcek

  check_policy : SnpReport → Bool → Policy → Result Claims
  check_policy report vendor_verified policy =
      if policy.require_vendor_root && not vendor_verified
      then err (rejected "report did not verify against a genuine AMD VCEK")
      else if not (vmpl_allowed policy report.vmpl)
      then err vmpl_not_allowed
      else if not (measurement_allowed policy report.measurement)
      then err measurement_not_allowed
      else ok (record {
        backend = sev_snp;
        measurement = report.measurement;
        report_data = report.report_data;
        vendor_verified = vendor_verified;
        extra =
            snp_facts report.version report.vmpl report.reported_tcb report.chip_id
              report.host_data;
      })

  check_report : SnpVerifier → SnpReport → ReportData → Policy → Result Claims
  unfolding find_vcek signed_by check_policy
  check_report v report expected policy =
      if not (bytes_eq report.report_data expected) then err report_data_mismatch else do
        vcek ← find_vcek v.vcek v.resolver report
        check_policy report (signed_by vcek report) policy

  pub verify : SnpVerifier → Verifier
  unfolding is_snp check_report
  verify v evidence expected policy =
      if not (is_snp evidence.backend)
      then err (malformed "not snp evidence")
      else do report ← parse_report evidence.report; check_report v report expected policy
