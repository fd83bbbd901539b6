-- ===== src/Attest.antt =====
-- crates/secgit-attest/src/lib.rs and tdx.rs: evidence, claims and the policy they are held against.
-- SHA-512 (aws-lc-rs) is the parameter `sha512`.
pub mod Mock
pub mod Snp
pub mod Vcek
use secgit.Prelude.{
  ℕ, zero, suc, ◌≡◌, refl, String, Bool, true, false, ◌||◌, Option, none, some, List, [], ◌∷◌, ◌++◌,
  Bytes, bytes_eq, any, ◌==◌,
}

pub data AttestError : Type 0 where
  unavailable malformed rejected unsupported io : String → AttestError
  report_data_mismatch measurement_not_allowed vmpl_not_allowed : AttestError

pub data Result {ℓ} (A : Type ℓ) : Type ℓ where
  ok : A → Result A
  err : AttestError → Result A

infixl 5 ◌>>=◌
abbrev pub ◌>>=◌ {ℓ κ} : {A : Type ℓ} {B : Type κ} → Result A → (A → Result B) → Result B
ok value >>= next = next value
err e >>= next = err e

abbrev pub or_else {ℓ} : {A : Type ℓ} → Option A → AttestError → Result A
or_else none e = err e
or_else (some a) e = ok a

pub data Backend : Type 0 where
  mock sev_snp tdx : Backend

-- The 64 bytes of a report's `REPORT_DATA`.
abbrev pub ReportData : Type 0
ReportData = Bytes

zeros : ℕ → Bytes
zeros zero = []
zeros (suc n) = 0 ∷ zeros n

pub zeroed : ReportData
unfolding zeros
zeroed = zeros 64

unfoldable pub bind : (Bytes → Bytes) → Bytes → Bytes → ReportData
bind sha512 nonce tee_pubkey = sha512 (nonce ++ tee_pubkey)

pub record Evidence : Type 0 where
  pub backend : Backend
  pub report : Bytes
  pub runtime_pubkey : Bytes

-- The backend's own facts, the JSON value `extra`.
pub data Extra : Type 0 where
  mock_facts : Extra
  snp_facts : (version vmpl reported_tcb : ℕ) (chip_id host_data : Bytes) → Extra

pub record Claims : Type 0 where
  pub backend : Backend
  pub measurement : Bytes
  pub report_data : ReportData
  pub vendor_verified : Bool
  pub extra : Extra

pub record Policy : Type 0 where
  pub allowed_measurements : List Bytes
  pub require_vendor_root : Bool
  pub expected_vmpl : Option ℕ

pub dev_permissive : Policy
dev_permissive = record {
  allowed_measurements = [];
  require_vendor_root = false;
  expected_vmpl = none;
}

is_empty : List Bytes → Bool
is_empty [] = true
is_empty (m ∷ ms) = false

unfoldable pub measurement_allowed : Policy → Bytes → Bool
unfolding is_empty
measurement_allowed p m =
    is_empty p.allowed_measurements || any (λ a. bytes_eq a m) p.allowed_measurements

is_none_or : Option ℕ → ℕ → Bool
is_none_or none vmpl = true
is_none_or (some e) vmpl = e == vmpl

unfoldable pub vmpl_allowed : Policy → ℕ → Bool
unfolding is_none_or
vmpl_allowed p vmpl = is_none_or p.expected_vmpl vmpl

-- The traits `Attester` and `Verifier`, by their one method that computes.
abbrev pub Attester : Type 0
Attester = ReportData → Result Evidence

abbrev pub Verifier : Type 0
Verifier = Evidence → ReportData → Policy → Result Claims

-- tdx.rs: both halves of the TDX backend refuse.
pub tdx_get_evidence : Attester
tdx_get_evidence report_data =
    err (unsupported "TDX quote retrieval not implemented yet (configfs-tsm tdx_guest)")

pub tdx_verify : Verifier
tdx_verify evidence expected policy =
    err (unsupported "TDX quote verification (DCAP cert chain) not implemented yet")

-- A chain that succeeded had a first step that succeeded.
pub chain_ok {ℓ κ} :
    {A : Type ℓ} {B : Type κ} (first : Result A) (next : A → Result B) {last : B}
    → (first >>= next) ≡ ok last
    → (x : A) × (first ≡ ok x) × (next x ≡ ok last)
chain_ok (ok x) next h = (x, refl, h)
chain_ok (err e) next h = cc

pub or_else-ok {ℓ} : {A : Type ℓ} (o : Option A) (e : _) {a : A} → or_else o e ≡ ok a → o ≡ some a
or_else-ok none e h = cc
or_else-ok (some a) e h = cc

pub ok_same {ℓ} : {A : Type ℓ} {x y : A} → ok x ≡ ok y → x ≡ y
ok_same h = cc
