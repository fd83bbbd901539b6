-- ===== src/Audit/Log/Tests.antt =====
-- Runs of the model of the log on disk, and its theorem at a concrete input.
use secgit.Prelude.Words.{le_bytes}
use secgit.Prelude.{
  ℕ, ◌+◌, ◌-◌, ◌≡◌, refl, ap, ap₂, false, Option, none, some, List, [], ◌∷◌, ◌++◌, map, Bytes,
  codes, length, take, drop, if◌then◌else◌, All, arith, inl, inr, Bool-cases, str_eq, eq_iff,
  bytes_eq,
}
use secgit.Crypto.Framing.{take_prefix, drop_prefix}
use secgit.Crypto.Tests.{toy_cipher}
use secgit.Audit.Event.{
  AuditEvent, repo_created, ref_updated, key_released, key_rotated, access_denied, admin, LogEntry,
  integrity, ok, err, no_hash, compute_entry_hash,
}
use secgit.Audit.Log.{
  is_space, is_empty, Json, Hex, empty_log, Outcome, not_written, not_synced, written, open_inner,
  trim,
}
use secgit.Audit.Log.Reload.{Call, append_all, open_inner-append_all}

-- A stand-in for JSON that can write one event, and one for hexadecimal text.
event_code : AuditEvent → Option ℕ
event_code (key_rotated id) = if str_eq id "core" then some 0 else none
event_code _ = none

written_as : LogEntry → Option ℕ → Option Bytes
written_as e none = none
written_as e (some c) =
    some (b'{' ∷ e.seq ∷ e.timestamp ∷ length e.prev_hash ∷ (e.prev_hash ++ e.entry_hash))

text_of : Option ℕ → Option Bytes
text_of none = none
text_of (some c) = some (c ∷ [])

read_back : Bytes → Option LogEntry
read_back (_ ∷ seq ∷ ts ∷ n ∷ rest) = some (record {
  seq = seq;
  timestamp = ts;
  prev_hash = take n rest;
  event = key_rotated "core";
  entry_hash = drop n rest;
})
read_back _ = none

event_code-some :
    (event : AuditEvent) (c : ℕ) → event_code event ≡ some c → event ≡ key_rotated "core"
unfolding event_code
event_code-some (key_rotated id) c h = elim (Bool-cases (str_eq id "core")) [
  | inl same ↦ ap key_rotated ((eq_iff id "core").0 same)
  | inr differs ↦ absurd (cc (rw differs at h))
]
event_code-some (repo_created r o) c h = absurd (cc)
event_code-some (ref_updated r n o w a) c h = absurd (cc)
event_code-some (key_released r m) c h = absurd (cc)
event_code-some (access_denied r a w) c h = absurd (cc)
event_code-some (admin a b) c h = absurd (cc)

read_back_code :
    (e : LogEntry) (o : Option ℕ) (b : Bytes)
    → event_code e.event ≡ o
    → written_as e o ≡ some b
    → read_back b ≡ some e
unfolding written_as read_back
read_back_code e none b h k = cc
read_back_code e (some c) b h k =
    let text : (b'{' ∷ e.seq ∷ e.timestamp ∷ length e.prev_hash ∷ (e.prev_hash ++ e.entry_hash))
        ≡ b =
      cc in
    rw (← text) (
      ap some (
        rw
          (
            take_prefix e.prev_hash e.entry_hash,
            drop_prefix e.prev_hash e.entry_hash,
            ← event_code-some e.event c h,
          )
          refl))

starts :
    (e : LogEntry) (o : Option ℕ) (b : Bytes)
    → written_as e o ≡ some b
    → (rest : Bytes) × (b ≡ b'{' ∷ rest)
unfolding written_as
starts e none b h = absurd (cc)
starts e (some c) b h =
    (e.seq ∷ e.timestamp ∷ length e.prev_hash ∷ (e.prev_hash ++ e.entry_hash), cc)

abbrev toy_json : Json
toy_json = record {
  write_event = λ event. text_of (event_code event);
  write_entry = λ e. written_as e (event_code e.event);
  read_entry = read_back;
  read-write = λ e b. read_back_code e (event_code e.event) b refl;
  object = λ e b. starts e (event_code e.event) b;
}

shift_back : (b : Bytes) → map (λ x. x - 100) (map (λ x. 100 + x) b) ≡ b
shift_back [] = refl
shift_back (x ∷ b) = ap₂ ◌∷◌ (omega arith) (shift_back b)

shifted_no_space : (b : Bytes) → All (λ c. is_space c ≡ false) (map (λ x. 100 + x) b)
unfolding is_space
shifted_no_space [] = tt
shifted_no_space (x ∷ b) = (ground arith, shifted_no_space b)

never_empty : (x : ℕ) (b : Bytes) → is_empty (map (λ y. 100 + y) (x ∷ b)) ≡ false
unfolding is_empty
never_empty x b = refl

abbrev toy_hex : Hex
toy_hex = record {
  hex_encode = map (λ x. 100 + x);
  hex_decode = λ b. some (map (λ x. x - 100) b);
  decode-encode = λ b. ap some (shift_back b);
  no_space = shifted_no_space;
  never_empty = never_empty;
}

abbrev toy_hash : Bytes → Bytes
toy_hash b = length b ∷ []

abbrev Append : Type 0
Append = Call toy_hash toy_cipher toy_json toy_hex

abbrev rotated : Outcome → Append
rotated outcome = record {
  outcome = outcome;
  ts = 7;
  drawn = some (codes "twelve bytes");
  event = key_rotated "core";
}

sized : (n : Bytes) → some (codes "twelve bytes") ≡ some n → length n ≡ 12
sized n h = let e : codes "twelve bytes" ≡ n = cc in rw (← e)

abbrev calls : List Append
calls = rotated written ∷ rotated not_written ∷ rotated written ∷ []

open_inner-append_all_example :
    let s =
      append_all toy_hash toy_cipher toy_json toy_hex calls
        (empty_log (codes "audit") (some (7 ∷ [])), []) in
    open_inner toy_hash toy_cipher toy_json toy_hex (codes "audit") (some (7 ∷ [])) s.1 ≡ ok s.0
open_inner-append_all_example =
    open_inner-append_all toy_hash toy_cipher toy_json toy_hex (codes "audit") (some (7 ∷ [])) calls
      ((λ e. cc, sized), ((λ e. cc, sized), ((λ e. cc, sized), tt)))

-- A line whose flush failed stays in the file, and the next entry repeats its number.
unsynced_run :
    let s =
      append_all toy_hash toy_cipher toy_json toy_hex
        (rotated not_synced ∷ rotated written ∷ [])
        (empty_log [] none, []) in
    open_inner toy_hash toy_cipher toy_json toy_hex [] none s.1 ≡ err (integrity "sequence gap")
unfolding append_all open_inner text_of event_code written_as trim read_back bytes_eq no_hash
    compute_entry_hash le_bytes
unsynced_run = refl
