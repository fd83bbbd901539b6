-- ===== src/Attest/Snp/Tests.antt =====
-- Runs of the model of snp.rs, and its theorems at concrete inputs.
use secgit.Prelude.{
  ℕ, zero, suc, ◌≡◌, refl, ap, Bool, true, some, [], ◌∷◌, Bytes, length, take, bytes_eq, arith,
}
use secgit.Attest.{ok, sev_snp, snp_facts, Evidence, Claims, Policy}
use secgit.Attest.Snp.{SnpReport, VcekKey, parse_report, signature_be}
use mathlib.Core.List.{reverse, ◌++◌}
use secgit.Prelude.{take, drop}
use secgit.Attest.Snp.Layout.{Fields, IsSized, report_text, parse_report-report_text}

zeros : ℕ → Bytes
zeros zero = []
zeros (suc n) = 0 ∷ zeros n

length-zeros : (n : ℕ) → length (zeros n) ≡ n
unfolding zeros
length-zeros zero = refl
length-zeros (suc n) = ap suc (length-zeros n)

-- A report of version 2 at VMPL 0.
abbrev fields : Fields
fields = record {
  version = 2;
  vmpl = 0;
  report_data = zeros 64;
  measurement = zeros 48;
  host_data = zeros 32;
  reported_tcb = 7;
  chip_id = zeros 64;
  gap1 = zeros 44;
  gap2 = zeros 28;
  gap3 = zeros 160;
  gap4 = zeros 24;
  gap5 = zeros 192;
  sig = zeros 512;
}

fields-IsSized : IsSized fields
fields-IsSized = record {
  version = omega arith;
  vmpl = omega arith;
  report_data = length-zeros 64;
  measurement = length-zeros 48;
  host_data = length-zeros 32;
  reported_tcb = omega arith;
  chip_id = length-zeros 64;
  gap1 = length-zeros 44;
  gap2 = length-zeros 28;
  gap3 = length-zeros 160;
  gap4 = length-zeros 24;
  gap5 = length-zeros 192;
  sig = length-zeros 512;
}

abbrev report : SnpReport
report = record {
  version = 2;
  vmpl = 0;
  report_data = zeros 64;
  measurement = zeros 48;
  host_data = zeros 32;
  reported_tcb = 7;
  chip_id = zeros 64;
  signed_data = take 672 (report_text fields);
  signature_be =
      reverse (take 48 (take 72 (zeros 512))) ++ reverse (take 48 (take 72 (drop 72 (zeros 512))));
}

parse_report-report_text_example : parse_report (report_text fields) ≡ ok report
parse_report-report_text_example = parse_report-report_text fields fields-IsSized

abbrev snp_evidence : Evidence
snp_evidence = record { backend = sev_snp; report = report_text fields; runtime_pubkey = [] }

abbrev strict : Policy
strict = record {
  allowed_measurements = zeros 48 ∷ [];
  require_vendor_root = true;
  expected_vmpl = some 0;
}

-- A stand-in for the signature check: the key names the signature's length.
toy_verify : Bytes → Bytes → Bytes → Bool
toy_verify point signed sig = bytes_eq point (length sig ∷ [])

abbrev vcek : VcekKey
vcek = record { sec1_uncompressed = 96 ∷ [] }

abbrev claims : Claims
claims = record {
  backend = sev_snp;
  measurement = zeros 48;
  report_data = zeros 64;
  vendor_verified = true;
  extra = snp_facts 2 0 7 (zeros 64) (zeros 32);
}
