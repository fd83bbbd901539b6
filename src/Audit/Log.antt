-- ===== src/Audit/Log.antt =====
-- crates/secgit-audit/src/lib.rs: the log on disk, its records, `load` and `append`.
-- The file is the list of its lines: neither JSON nor hexadecimal text has a line break, so that
-- `writeln!` adds one line. The clock, the random draw and the outcome of the write are arguments.
pub mod Record
pub mod Reload
pub mod Tests
use secgit.Prelude.{
  ℕ, ◌+◌, ◌==◌, leb, ◌≡◌, Bool, true, false, not, ◌&&◌, ◌||◌, Option, none, some, List, [], ◌∷◌,
  ◌++◌, Bytes, codes, bytes_eq, length, if◌then◌else◌, All,
}
use secgit.Prelude.Words.{le_bytes}
use secgit.Crypto.Error.{Result as CryptoResult, default_aead}
use secgit.Crypto.Error as Crypto
use secgit.Crypto.Aead.{Cipher, seal, open_sealed}
use secgit.Audit.Event.{
  AuditError, io, serde, crypto, integrity, Result, ok, err, ◌>>=◌, AuditEvent, LogEntry,
  compute_entry_hash, no_hash,
}
use secgit.Audit.Merkle.{leaf_hash}

-- The white space of ASCII, and `str::trim` and `is_empty` on it.
pub is_space : ℕ → Bool
is_space b = b == 32 || (leb 9 b && leb b 13)

pub trim_start : Bytes → Bytes
unfolding is_space
trim_start [] = []
trim_start (b ∷ bs) = if is_space b then trim_start bs else b ∷ bs

pub is_empty : Bytes → Bool
is_empty [] = true
is_empty (b ∷ bs) = false

pub trim_end : Bytes → Bytes
unfolding is_space is_empty
trim_end [] = []
trim_end (b ∷ bs) = let rest = trim_end bs in if is_space b && is_empty rest then [] else b ∷ rest

unfoldable pub trim : Bytes → Bytes
unfolding trim_start trim_end
trim text = trim_end (trim_start text)

-- What the log uses of serde_json: a record is written as an object, and reads back.
pub record Json : Type 0 where
  pub write_event : AuditEvent → Option Bytes
  pub write_entry : LogEntry → Option Bytes
  pub read_entry : Bytes → Option LogEntry
  pub read-write : (e : LogEntry) (b : Bytes) → write_entry e ≡ some b → read_entry b ≡ some e
  pub object :
      (e : LogEntry) (b : Bytes) → write_entry e ≡ some b → (rest : Bytes) × (b ≡ b'{' ∷ rest)

-- What the log uses of the crate hex: two characters for a byte, none of them white space.
pub record Hex : Type 0 where
  pub hex_encode : Bytes → Bytes
  pub hex_decode : Bytes → Option Bytes
  pub decode-encode : (b : Bytes) → hex_decode (hex_encode b) ≡ some b
  pub no_space : (b : Bytes) → All (λ c. is_space c ≡ false) (hex_encode b)
  pub never_empty : (x : ℕ) (b : Bytes) → is_empty (hex_encode (x ∷ b)) ≡ false

pub record TransparencyLog : Type 0 where
  pub log_id : Bytes
  pub entries : List LogEntry
  pub leaves : List Bytes
  pub at_rest : Option Bytes

-- How the write of a line may end: nothing is written, the line is written and the flush fails, or
-- both succeed.
pub data Outcome : Type 0 where
  not_written not_synced written : Outcome

pub or_serde : {A : Type 0} → Option A → Result A
or_serde none = err serde
or_serde (some a) = ok a

pub from_crypto : {A : Type 0} → CryptoResult A → Result A
from_crypto (Crypto.ok a) = ok a
from_crypto (Crypto.err e) = err crypto

pub or_bad_hex : Option Bytes → Result Bytes
or_bad_hex none = err (integrity "audit record not valid hex")
or_bad_hex (some b) = ok b

pub last_hash : List LogEntry → Bytes
last_hash [] = no_hash
last_hash (e ∷ []) = e.entry_hash
last_hash (e ∷ f ∷ es) = last_hash (f ∷ es)

pub record_aad : TransparencyLog → ℕ → Bytes
record_aad log seq = codes "secgit/audit-record/v1" ++ 0 ∷ (log.log_id ++ 0 ∷ le_bytes 8 seq)

pub empty_log : Bytes → Option Bytes → TransparencyLog
empty_log log_id at_rest = record { log_id = log_id; entries = []; leaves = []; at_rest = at_rest }

module _ (sha256 : Bytes → Bytes) (cipher : Cipher) (json : Json) (hex : Hex) where
  open json use {write_event, write_entry, read_entry}
  open hex use {hex_encode, hex_decode}

  pub decode_with : Option Bytes → Bytes → Bytes → Result Bytes
  unfolding or_bad_hex from_crypto
  decode_with none aad line = ok line
  decode_with (some key) aad line = do
    ct ← or_bad_hex (hex_decode (trim line))
    from_crypto (open_sealed cipher key aad ct)

  pub decode_record : TransparencyLog → ℕ → Bytes → Result Bytes
  unfolding decode_with record_aad
  decode_record log seq line = decode_with log.at_rest (record_aad log seq) line

  pub encode_with : Option Bytes → Option Bytes → Bytes → Bytes → Result Bytes
  unfolding from_crypto
  encode_with none drawn aad text = ok text
  encode_with (some key) drawn aad text = do
    ct ← from_crypto (seal cipher drawn default_aead key aad text)
    ok (hex_encode ct)

  pub encode_record : TransparencyLog → Option Bytes → ℕ → Bytes → Result Bytes
  unfolding encode_with record_aad
  encode_record log drawn seq text = encode_with log.at_rest drawn (record_aad log seq) text

  pub push_entry : LogEntry → TransparencyLog → TransparencyLog
  push_entry e log = record log {
    entries = log.entries ++ e ∷ [];
    leaves = log.leaves ++ leaf_hash sha256 e.entry_hash ∷ [];
  }

  -- The checks of `load` on the entry of a line.
  pub verify_entry : ℕ → Bytes → LogEntry → Result (Unit {0})
  unfolding or_serde
  verify_entry i prev e =
      if not (e.seq == i)
      then err (integrity "sequence gap")
      else if not (bytes_eq e.prev_hash prev)
      then err (integrity "broken hash chain")
      else (do
        event_json ← or_serde (write_event e.event)
        if bytes_eq (compute_entry_hash sha256 e.seq e.timestamp e.prev_hash event_json)
              e.entry_hash
            then ok tt
            else err (integrity "entry hash mismatch"))

  pub load_line : ℕ → Bytes → Bytes × TransparencyLog → Result (Bytes × TransparencyLog)
  unfolding decode_record or_serde verify_entry push_entry is_empty
  load_line i line (prev, log) = if is_empty (trim line) then ok (prev, log) else (do
    text ← decode_record log i line
    e ← or_serde (read_entry text)
    checked ← verify_entry i prev e
    ok (e.entry_hash, push_entry e log))

  pub load_from : ℕ → List Bytes → Bytes × TransparencyLog → Result (Bytes × TransparencyLog)
  unfolding load_line
  load_from i [] state = ok state
  load_from i (line ∷ lines) state = load_line i line state >>= load_from (i + 1) lines

  pub open_inner : Bytes → Option Bytes → List Bytes → Result TransparencyLog
  unfolding load_from empty_log
  open_inner log_id at_rest file = do
    state ← load_from 0 file (no_hash, empty_log log_id at_rest)
    ok state.1

  -- The entry that `append` makes, from the event's text.
  pub new_entry : ℕ → AuditEvent → TransparencyLog → Bytes → LogEntry
  unfolding last_hash
  new_entry ts event log event_json =
      let seq = length log.entries in
      let prev = last_hash log.entries in
      record {
        seq = seq;
        timestamp = ts;
        prev_hash = prev;
        event = event;
        entry_hash = compute_entry_hash sha256 seq ts prev event_json;
      }

  -- What `append` does up to the write: the entry and its line.
  pub prepare : ℕ → Option Bytes → AuditEvent → TransparencyLog → Result (LogEntry × Bytes)
  unfolding or_serde encode_record new_entry
  prepare ts drawn event log = do
    event_json ← or_serde (write_event event)
    text ← or_serde (write_entry (new_entry ts event log event_json))
    line ← encode_record log drawn (length log.entries) text
    ok (new_entry ts event log event_json, line)

  commit :
      Outcome
      → Result (LogEntry × Bytes)
      → TransparencyLog
      → List Bytes
      → Result LogEntry × (TransparencyLog × List Bytes)
  unfolding push_entry
  commit outcome (err e) log file = (err e, (log, file))
  commit not_written (ok (e, line)) log file = (err io, (log, file))
  commit not_synced (ok (e, line)) log file = (err io, (log, file ++ line ∷ []))
  commit written (ok (e, line)) log file = (ok e, (push_entry e log, file ++ line ∷ []))

  pub append :
      Outcome
      → ℕ
      → Option Bytes
      → AuditEvent
      → TransparencyLog
      → List Bytes
      → Result LogEntry × (TransparencyLog × List Bytes)
  unfolding commit prepare
  append outcome ts drawn event log file = commit outcome (prepare ts drawn event log) log file
