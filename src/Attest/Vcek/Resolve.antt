-- ===== src/Attest/Vcek/Resolve.antt =====
-- vcek.rs: revocation, and the resolution of a report's chip to a key.
pub mod Safety
pub mod Tests
use Prim.Native.String.{◌++◌}
use secgit.Prelude.{
  ℕ, ◌+◌, ◌-◌, ◌^◌, ◌≡◌, min, String, Bool, true, false, not, Option, none, some, List, [], ◌∷◌,
  Bytes, ltb, if◌then◌else◌,
}
use secgit.Attest.{AttestError, malformed, rejected, Result, ok, err, or_else}
use secgit.Attest.Snp.{VcekKey}
use secgit.Attest.Vcek.{
  Product, as_str, Tcb, from_reported, RevocationConfig, Certificate, CertificateList,
  CertificateLibrary, serial_revoked, cached_crl_usable, parse_cert_der, verify_vcek, crl_signed_by,
}
use secgit.Attest.Vcek.Pem.{parse_cert_chain_pem}
use secgit.Attest.Vcek.Cache.{VcekCache, Step, ◌>>=◌, lift, get, get_with_age, put}

pub kds_cert_chain_url : Product → String
kds_cert_chain_url product = "https://kdsintf.amd.com/vcek/v1/" ++ (as_str product ++ "/cert_chain")

pub kds_crl_url : Product → String
kds_crl_url product = "https://kdsintf.amd.com/vcek/v1/" ++ (as_str product ++ "/crl")

abbrev u64_max : ℕ
u64_max = 2 ^ 64 - 1

abbrev crl_name : Product → String
crl_name product = "crl-" ++ (as_str product ++ ".der")

abbrev unobtainable : AttestError
unobtainable = rejected "CRL unobtainable and no fresh cached CRL (failing closed on revocation)"

usable : Option (Bytes × ℕ) → RevocationConfig → Option Bytes
usable none cfg = none
usable (some (bytes, age)) cfg = if cached_crl_usable age cfg then some bytes else none

first_of : List Certificate → Result Certificate
first_of [] = err (malformed "empty KDS cert chain")
first_of (c ∷ cs) = ok c

pub expired : Option ℕ → ℕ → RevocationConfig → Bool
expired none now cfg = false
expired (some next) now cfg = ltb (min (next + cfg.max_crl_age_secs) u64_max) now

module _ (lib : CertificateLibrary) (fetch : String → Result Bytes) where
  open lib use {hex_encode, decimal}

  pub kds_vcek_url : Product → Bytes → Tcb → String
  kds_vcek_url product chip_id tcb =
      "https://kdsintf.amd.com/vcek/v1/"
      ++ (as_str product
          ++ ("/"
              ++ (hex_encode chip_id
                  ++ ("?blSPL="
                      ++ (decimal tcb.bootloader
                          ++ ("&teeSPL="
                              ++ (decimal tcb.tee
                                  ++ ("&snpSPL="
                                      ++ (decimal tcb.snp
                                          ++ ("&ucodeSPL=" ++ decimal tcb.microcode))))))))))

  pub vcek_name : Product → Bytes → Tcb → String
  vcek_name product chip_id tcb =
      "vcek-"
      ++ (as_str product
          ++ ("-"
              ++ (hex_encode chip_id
                  ++ ("-bl"
                      ++ (decimal tcb.bootloader
                          ++ ("-tee"
                              ++ (decimal tcb.tee
                                  ++ ("-snp"
                                      ++ (decimal tcb.snp
                                          ++ ("-uc" ++ (decimal tcb.microcode ++ ".der")))))))))))

  fetch_and_put : String → String → Step Bytes
  fetch_and_put name url = do b ← lift (fetch url); stored ← put name b; lift (ok b)

  get_or_fetch : String → String → Step Bytes
  unfolding fetch_and_put
  get_or_fetch name url c = elim (get name c) as (λ _. Result Bytes × VcekCache) [
    | some b ↦ (ok b, c)
    | none ↦ fetch_and_put name url c
  ]

  -- A cached list that is fresh enough, else a fetched one, else a cached one after all.
  find_crl : Product → RevocationConfig → Step Bytes
  unfolding usable
  find_crl product cfg c =
      let name = crl_name product in
      elim (usable (get_with_age name c) cfg) as (λ _. Result Bytes × VcekCache) [
        | some bytes ↦ (ok bytes, c)
        | none ↦ elim (fetch (kds_crl_url product)) as (λ _. Result Bytes × VcekCache) [
          | ok bytes ↦ (put name bytes >>= (λ stored. lift (ok bytes))) c
          | err fetch_err ↦
              elim (usable (get_with_age name c) cfg) as (λ _. Result Bytes × VcekCache) [
                | some bytes ↦ (ok bytes, c)
                | none ↦ (err unobtainable, c)
              ]
        ]
      ]

  at_clock : (ℕ → Result (Unit {0})) → Step (Unit {0})
  at_clock check c = (check c.now, c)

  check_list : CertificateList → ℕ → RevocationConfig → Certificate → Result (Unit {0})
  unfolding expired
  check_list crl now cfg vcek =
      if expired crl.next_update now cfg
      then err (rejected "CRL is expired beyond the offline window (failing closed)")
      else if serial_revoked crl vcek.serial_number
      then err (rejected "VCEK is revoked (present in AMD CRL)")
      else ok tt

  check_crl : Certificate → Certificate → RevocationConfig → Bytes → Step (Unit {0})
  unfolding check_list at_clock
  check_crl ask vcek cfg crl_der = do
    crl ← lift (or_else (lib.crl_from_der crl_der) (malformed "invalid DER CRL"))
    signed ← lift (crl_signed_by lib ask crl)
    at_clock (λ now. check_list crl now cfg vcek)

  check_revocation : Product → Certificate → Certificate → RevocationConfig → Step (Unit {0})
  unfolding find_crl check_crl
  check_revocation product ask vcek cfg c =
      if not cfg.enabled then (ok tt, c) else (find_crl product cfg >>= check_crl ask vcek cfg) c

  pub resolve_vcek : Product → Bytes → ℕ → RevocationConfig → Step VcekKey
  unfolding get_or_fetch first_of check_revocation
  resolve_vcek product chip_id reported_tcb revocation =
      let tcb = from_reported reported_tcb in
      do
        vcek_der ← get_or_fetch (vcek_name product chip_id tcb) (kds_vcek_url product chip_id tcb)
        chain_pem ←
            get_or_fetch ("certchain-" ++ (as_str product ++ ".pem")) (kds_cert_chain_url product)
        chain ← lift (parse_cert_chain_pem lib (lib.from_utf8_lossy chain_pem))
        ask ← lift (first_of chain)
        vcek ← lift (parse_cert_der lib vcek_der)
        found ← lift (verify_vcek lib product ask vcek)
        checked ← check_revocation product ask vcek revocation
        lift (ok found)
