-- ===== src/Keybroker/Tests.antt =====
-- Runs of the model of replay.rs, and the theorems about it at concrete inputs.
use secgit.Prelude.{
  ℕ, zero, suc, ◌-◌, String, ◌≡◌, ◌≢◌, ◌≤◌, ◌<◌, ◌+◌, ◌↔◌, refl, some, none, true, false, [], ◌∷◌,
  Bytes, arith,
}
use secgit.Prelude.Maps.{lookup, contains_key, retain, insert}
use secgit.Keybroker.Replay.{
  ReplayGuard, ok, err, stale, replayed, open_guard, with_future_skew, check_and_record_at,
}
use secgit.Keybroker.Replay.Window.{check_iff}
use secgit.Keybroker.Replay.Retention.{
  Request, result, after_check, after_checks, refused_while_retained, accepted_again_iff,
  refused_after_restart,
}

-- Two nonces, told apart by their first byte.
abbrev name_of : Bytes → String
name_of [] = ""
name_of (zero ∷ _) = "00"
name_of (suc _ ∷ _) = "ff"

abbrev guard : ReplayGuard
guard = record { ttl_secs = 300; future_skew_secs = 60; seen = []; file = [] }

guard_run : with_future_skew (open_guard none 300) 60 ≡ guard
unfolding with_future_skew open_guard
guard_run = refl

-- A request made at 1000 whose stated time lies 40 seconds ahead.
abbrev request : Request
request = record { written = true; nonce = 0 ∷ []; timestamp = 1040; now = 1000 }

abbrev other : Request
other = record { written = false; nonce = 1 ∷ []; timestamp = 1100; now = 1100 }

abbrev at : ℕ → Request
at now = record { written = true; nonce = 0 ∷ []; timestamp = 1040; now = now }

accepted : result name_of request guard ≡ ok tt
unfolding check_and_record_at contains_key retain
accepted = refl

second_run : result name_of (at 1300) (after_check name_of request guard) ≡ err replayed
unfolding check_and_record_at after_check contains_key retain insert
second_run = refl

stale_run : result name_of (at 1341) guard ≡ err stale
unfolding check_and_record_at
stale_run = refl

check_iff_example : (result name_of request guard ≡ ok tt) ↔ (
    (1000 - 300 ≤ 1040)
    × (1040 ≤ 1000 + 60)
    × ((seen : ℕ) → lookup "00" guard.seen ≡ some seen → seen + 300 < 1000))
check_iff_example = check_iff name_of guard true (0 ∷ []) 1040 1000 tt (omega arith)

refused_while_retained_example :
    result name_of (at 1300) (after_checks name_of (other ∷ []) (after_check name_of request guard))
    ≢ ok tt
refused_while_retained_example =
    refused_while_retained name_of guard request (other ∷ []) (at 1300) tt accepted
      (omega arith, tt) refl (omega arith)

accepted_again_iff_example :
    (result name_of (at 1301) (after_check name_of request guard) ≡ ok tt)
    ↔ ((1000 + 300 < 1301) × (1301 ≤ 1040 + 300))
accepted_again_iff_example =
    accepted_again_iff name_of guard request (at 1301) tt accepted refl refl (omega arith)
      (omega arith)

refused_after_restart_example :
    result name_of (at 1300) (
      after_checks name_of
        (other ∷ [])
        (open_guard (some (after_check name_of request guard).file) 300))
    ≢ ok tt
refused_after_restart_example =
    refused_after_restart name_of guard request (other ∷ []) (at 1300) tt refl accepted
      (omega arith, tt) refl (omega arith)
