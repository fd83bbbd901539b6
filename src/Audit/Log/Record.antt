-- ===== src/Audit/Log/Record.antt =====
-- lib.rs of secgit-audit: a line that `append` makes is the line of its entry, and `load` accepts it.
use secgit.Prelude.{
  ℕ, ◌+◌, ◌==◌, ==_iff, ◌≡◌, ◌≢◌, refl, ap, ◌∙◌, true, false, Option, none, some, List, [], ◌∷◌,
  ◌++◌, Bytes, bytes_eq, bytes_eq_refl, length, All, arith,
}
use secgit.Crypto.Error.{default_aead}
use secgit.Crypto.Envelope.{decode}
use secgit.Crypto.Aead.{Cipher, seal, open_sealed, nonce_len}
use secgit.Crypto.Aead.RoundTrip.{open_sealed-seal}
use secgit.Crypto.Error as Crypto
use secgit.Audit.Event.{Result, ok, err, ◌>>=◌, AuditEvent, LogEntry, compute_entry_hash}
use secgit.Audit.Log.{
  is_space, trim_start, trim_end, trim, is_empty, Json, Hex, TransparencyLog, or_serde, from_crypto,
  last_hash, record_aad, decode_with, decode_record, encode_with, encode_record, push_entry,
  verify_entry, load_line, load_from, new_entry, prepare,
}

step_ok :
    {A : Type 0} {B : Type 0} (r : Result A) (next : A → Result B) {b : B}
    → (r >>= next) ≡ ok b
    → (x : A) × (r ≡ ok x) × (next x ≡ ok b)
step_ok (ok x) next h = (x, refl, h)
step_ok (err e) next h = cc

ok_same : {A : Type 0} {x y : A} → ok x ≡ ok y → x ≡ y
ok_same h = cc

or_serde-ok : {A : Type 0} (o : Option A) {a : A} → or_serde o ≡ ok a → o ≡ some a
unfolding or_serde
or_serde-ok none h = cc
or_serde-ok (some a) h = cc

from_crypto-ok : {A : Type 0} (r : Crypto.Result A) {a : A} → from_crypto r ≡ ok a → r ≡ Crypto.ok a
unfolding from_crypto
from_crypto-ok (Crypto.ok a) h = cc
from_crypto-ok (Crypto.err e) h = cc

pub last_hash-append : (es : List LogEntry) (e : LogEntry) → last_hash (es ++ e ∷ []) ≡ e.entry_hash
unfolding last_hash
last_hash-append [] e = refl
last_hash-append (d ∷ []) e = refl
last_hash-append (d ∷ f ∷ es) e = last_hash-append (f ∷ es) e

trim_end-All : (b : Bytes) → All (λ c. is_space c ≡ false) b → trim_end b ≡ b
unfolding trim_end
trim_end-All [] h = refl
trim_end-All (x ∷ b) h = ground (arith, h.0, trim_end-All b h.1)

trim-All : (b : Bytes) → All (λ c. is_space c ≡ false) b → trim b ≡ b
unfolding trim trim_start
trim-All [] h = trim_end-All [] tt
trim-All (x ∷ b) h = rw h.0 (trim_end-All (x ∷ b) h)

trim_object : (b : Bytes) → is_empty (trim (b'{' ∷ b)) ≡ false
unfolding trim trim_start trim_end is_empty is_space
trim_object b = refl

nothing_opens :
    (cipher : Cipher) (key aad plain : Bytes) → open_sealed cipher key aad [] ≢ Crypto.ok plain
unfolding open_sealed decode
nothing_opens cipher key aad plain h = cc

module _ (sha256 : Bytes → Bytes) (cipher : Cipher) (json : Json) (hex : Hex) where
  bind_done :
      (i : ℕ) (r : Result (Bytes × TransparencyLog))
      → (r >>= load_from sha256 cipher json hex i []) ≡ r
  unfolding load_from
  bind_done i (ok s) = refl
  bind_done i (err e) = refl

  pub load_from-append :
      (i : ℕ) (lines : List Bytes) (line : Bytes) (s : Bytes × TransparencyLog)
      → load_from sha256 cipher json hex i (lines ++ line ∷ []) s ≡ (
          load_from sha256 cipher json hex i lines s
          >>= load_line sha256 cipher json hex (i + length lines) line)
  unfolding load_from
  load_from-append i [] line s =
      bind_done (i) (load_line sha256 cipher json hex i line s)
      ∙ ap (λ k. load_line sha256 cipher json hex k line s) (omega arith)
  load_from-append i (l ∷ lines) line s =
      go (load_line sha256 cipher json hex i l s) (λ t. load_from-append (i + 1) lines line t)
    where
      go :
          (r : Result (Bytes × TransparencyLog))
          → ((t : Bytes × TransparencyLog)
              → load_from sha256 cipher json hex (i + 1) (lines ++ line ∷ []) t ≡ (
                  load_from sha256 cipher json hex (i + 1) lines t
                  >>= load_line sha256 cipher json hex (i + 1 + length lines) line))
          → (r >>= load_from sha256 cipher json hex (i + 1) (lines ++ line ∷ [])) ≡ (
              (r >>= load_from sha256 cipher json hex (i + 1) lines)
              >>= load_line sha256 cipher json hex (i + length (l ∷ lines)) line)
      go (err e) more = refl
      go (ok t) more =
          more t
          ∙ ap
              (λ k.
                load_from sha256 cipher json hex (i + 1) lines t
                >>= load_line sha256 cipher json hex k line)
              (omega arith)

  -- What is written of an entry decodes to its text, and is not blank.
  decode-encode_with :
      (at_rest drawn : Option Bytes) (aad rest line : Bytes)
      → ((nonce : Bytes) → drawn ≡ some nonce → length nonce ≡ nonce_len)
      → encode_with sha256 cipher json hex at_rest drawn aad (b'{' ∷ rest) ≡ ok line
      → (decode_with sha256 cipher json hex at_rest aad line ≡ ok (b'{' ∷ rest))
        × (is_empty (trim line) ≡ false)
  unfolding decode_with encode_with
  decode-encode_with none drawn aad rest line n h =
      let same : b'{' ∷ rest ≡ line = cc in rw (← same) (refl, trim_object rest)
  decode-encode_with (some key) drawn aad rest line n h =
      let (ct, sealed, made) =
        step_ok (from_crypto (seal cipher drawn default_aead key aad (b'{' ∷ rest))) _ h in
      let opens =
        open_sealed-seal cipher drawn default_aead key aad (b'{' ∷ rest) ct n
          (from_crypto-ok _ sealed) in
      let same : hex.hex_encode ct ≡ line = cc in
      let trimmed = trim-All (hex.hex_encode ct) (hex.no_space ct) in
      rw (← same, trimmed, hex.decode-encode ct) (ap from_crypto opens, not_blank ct opens)
    where
      not_blank :
          (ct : Bytes)
          → open_sealed cipher key aad ct ≡ Crypto.ok (b'{' ∷ rest)
          → is_empty (hex.hex_encode ct) ≡ false
      not_blank [] e = absurd (nothing_opens cipher key aad (b'{' ∷ rest) e)
      not_blank (x ∷ b) e = hex.never_empty x b

  -- The entry that `prepare` made, and how its line came about.
  pub record Prepared (ts : ℕ) (drawn : Option Bytes) (event : AuditEvent) (log : TransparencyLog)
      (e : LogEntry) (line : Bytes) : Type 0 where
    pub event_json : Bytes
    pub text : Bytes
    pub event_written : json.write_event e.event ≡ some event_json
    pub entry_written : json.write_entry e ≡ some text
    pub encoded :
        encode_with sha256 cipher json hex log.at_rest drawn
          (record_aad log (length log.entries))
          text
        ≡ ok line
    pub numbered : e.seq ≡ length log.entries
    pub chained : e.prev_hash ≡ last_hash log.entries
    pub hashed : compute_entry_hash sha256 e.seq e.timestamp e.prev_hash event_json ≡ e.entry_hash

  pub prepare-Prepared :
      (ts : ℕ) (drawn : Option Bytes) (event : AuditEvent) (log : TransparencyLog) (e : LogEntry)
      (line : Bytes)
      → prepare sha256 cipher json hex ts drawn event log ≡ ok (e, line)
      → Prepared ts drawn event log e line
  unfolding prepare encode_record new_entry
  prepare-Prepared ts drawn event log e line h =
      let (event_json, w, h1) = step_ok (or_serde (json.write_event event)) _ h in
      let made = new_entry sha256 cipher json hex ts event log event_json in
      let (text, v, h2) = step_ok (or_serde (json.write_entry made)) _ h1 in
      let (l, enc, h3) =
        step_ok
          (encode_with sha256 cipher json hex log.at_rest drawn
            (record_aad log (length log.entries)) text)
          _ h2 in
      let same_e : made ≡ e = ap (λ t. t.0) (ok_same h3) in
      let same_l : l ≡ line = ap (λ t. t.1) (ok_same h3) in
      rw (← same_e) (record {
        event_json = event_json;
        text = text;
        event_written = or_serde-ok _ w;
        entry_written = or_serde-ok _ v;
        encoded = rw (← same_l) enc;
        numbered = refl;
        chained = refl;
        hashed = refl;
      })

  pub load_line-Prepared :
      (ts : ℕ) (drawn : Option Bytes) (event : AuditEvent) (log : TransparencyLog) (e : LogEntry)
      (line : Bytes)
      → ((nonce : Bytes) → drawn ≡ some nonce → length nonce ≡ nonce_len)
      → Prepared ts drawn event log e line
      → load_line sha256 cipher json hex (length log.entries) line (last_hash log.entries, log)
        ≡ ok (e.entry_hash, push_entry sha256 cipher json hex e log)
  unfolding load_line decode_record verify_entry or_serde
  load_line-Prepared ts drawn event log e line n p =
      let (rest, object) = json.object e p.text p.entry_written in
      let encoded : encode_with sha256 cipher json hex log.at_rest drawn
            (record_aad log (length log.entries)) (b'{' ∷ rest)
          ≡ ok line =
        rw (← object) p.encoded in
      let (decoded, shown) =
        decode-encode_with log.at_rest drawn (record_aad log (length log.entries)) rest line n
          encoded in
      let back : json.read_entry (b'{' ∷ rest) ≡ some e =
        json.read-write e (b'{' ∷ rest) (p.entry_written ∙ ap some object) in
      let number : (e.seq == length log.entries) ≡ true = (==_iff _ _).1 p.numbered in
      let chain : bytes_eq e.prev_hash (last_hash log.entries) ≡ true =
        rw p.chained (bytes_eq_refl (last_hash log.entries)) in
      let digest : bytes_eq (compute_entry_hash sha256 e.seq e.timestamp e.prev_hash p.event_json)
            e.entry_hash
          ≡ true =
        rw p.hashed (bytes_eq_refl e.entry_hash) in
      rw (shown, decoded, back, number, chain, p.event_written, digest) refl
