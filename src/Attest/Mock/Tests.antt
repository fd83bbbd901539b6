-- ===== src/Attest/Mock/Tests.antt =====
-- Runs of the model of mock.rs, and its theorem at concrete inputs.
use secgit.Prelude.{
  ℕ, zero, suc, ◌≡◌, refl, ap, false, Option, none, some, [], ◌∷◌, ◌++◌, Bytes, length, take, drop,
  bytes_eq,
}
use secgit.Attest.{measurement_not_allowed, ok, err, mock, Evidence, Policy, measurement_allowed}
use secgit.Attest.Mock.{MockReport, MockLibrary, get_evidence, verify, verify-get_evidence}
use secgit.Crypto.Framing.{take_prefix, drop_prefix}
use secgit.Prelude.{take_all}

zeros : ℕ → Bytes
zeros zero = []
zeros (suc n) = 0 ∷ zeros n

length-zeros : (n : ℕ) → length (zeros n) ≡ n
unfolding zeros
length-zeros zero = refl
length-zeros (suc n) = ap suc (length-zeros n)

-- A stand-in for JSON: the measurement's byte, the tag's byte, then the report data.
toy_to_vec : MockReport → Option Bytes
toy_to_vec r = some (
    length r.measurement
    ∷ (length r.mac ∷ (length r.report_data ∷ (r.measurement ++ (r.mac ++ r.report_data)))))

toy_from_slice : Bytes → Option MockReport
toy_from_slice (m ∷ t ∷ d ∷ bytes) = some (record {
  measurement = take m bytes;
  report_data = take d (drop t (drop m bytes));
  mac = take t (drop m bytes);
})
toy_from_slice _ = none

toy_from_slice-toy_to_vec :
    (r : MockReport) (bytes : Bytes) → toy_to_vec r ≡ some bytes → toy_from_slice bytes ≡ some r
unfolding toy_to_vec toy_from_slice
toy_from_slice-toy_to_vec r bytes e =
    let text = r.measurement ++ (r.mac ++ r.report_data) in
    let same : length r.measurement ∷ (length r.mac ∷ (length r.report_data ∷ text)) ≡ bytes = cc in
    rw
      (
        ← same,
        take_prefix r.measurement (r.mac ++ r.report_data),
        drop_prefix r.measurement (r.mac ++ r.report_data),
        take_prefix r.mac r.report_data,
        drop_prefix r.mac r.report_data,
        take_all (length r.report_data) r.report_data refl,
      )
      refl

toy_mock : MockLibrary
toy_mock = record {
  to_vec = toy_to_vec;
  from_slice = toy_from_slice;
  hex_encode = λ b. b;
  hex_decode = λ b. some b;
  hmac = λ k m. length m ∷ [];
  from_slice-to_vec = toy_from_slice-toy_to_vec;
  hex_decode-hex_encode = λ b. refl;
}

abbrev evidence : Evidence
evidence = record {
  backend = mock;
  report = 1 ∷ (1 ∷ (64 ∷ (94 ∷ (65 ∷ zeros 64))));
  runtime_pubkey = [];
}

attested : get_evidence toy_mock (94 ∷ []) (zeros 64) ≡ ok evidence
unfolding get_evidence toy_mock toy_to_vec zeros
attested = refl

abbrev only_ninety : Policy
only_ninety = record {
  allowed_measurements = (90 ∷ []) ∷ [];
  require_vendor_root = false;
  expected_vmpl = none;
}

-- Another measurement than the allowed one does not verify.
verify-get_evidence_example :
    verify toy_mock evidence (zeros 64) only_ninety ≡ err measurement_not_allowed
unfolding measurement_allowed bytes_eq zeros
verify-get_evidence_example =
    verify-get_evidence toy_mock (94 ∷ []) (zeros 64) (zeros 64) only_ninety evidence
      (length-zeros 64) attested
