-- ===== src/Audit/Log/Reload.antt =====
-- lib.rs of secgit-audit: what `append` writes, `load` reads back and verifies.
use secgit.Prelude.{
  ℕ, ◌+◌, ◌≡◌, ◌≢◌, refl, ◌∙◌, Option, some, List, [], ◌∷◌, ◌++◌, Bytes, length, length-append, All,
  arith,
}
use secgit.Crypto.Aead.{Cipher, nonce_len}
use secgit.Audit.Event.{Result, ok, err, AuditEvent, LogEntry, no_hash}
use secgit.Audit.Log.{
  Json, Hex, TransparencyLog, Outcome, not_written, not_synced, written, last_hash, empty_log,
  push_entry, load_from, open_inner, prepare, commit, append,
}
use secgit.Audit.Log.Record.{
  last_hash-append, load_from-append, Prepared, prepare-Prepared, load_line-Prepared,
}

module _ (sha256 : Bytes → Bytes) (cipher : Cipher) (json : Json) (hex : Hex) where
  -- The file holds a line for each entry, and loads as the log that is in memory.
  record IsSynced (log : TransparencyLog) (file : List Bytes) : Type 0 where
    pub counted : length file ≡ length log.entries
    pub loads :
        load_from sha256 cipher json hex 0 file (no_hash, empty_log log.log_id log.at_rest)
        ≡ ok (last_hash log.entries, log)

  new-IsSynced : (log_id : Bytes) (at_rest : Option Bytes) → IsSynced (empty_log log_id at_rest) []
  unfolding load_from last_hash empty_log
  new-IsSynced log_id at_rest = record { counted = refl; loads = refl }

  written-IsSynced :
      (ts : ℕ) (drawn : Option Bytes) (event : AuditEvent) (log : TransparencyLog)
      (file : List Bytes) (e : LogEntry) (line : Bytes)
      → ((nonce : Bytes) → drawn ≡ some nonce → length nonce ≡ nonce_len)
      → Prepared sha256 cipher json hex ts drawn event log e line
      → IsSynced log file
      → IsSynced (push_entry sha256 cipher json hex e log) (file ++ line ∷ [])
  unfolding push_entry
  written-IsSynced ts drawn event log file e line n p s =
      let next : 0 + length file ≡ length log.entries = omega (arith, s.counted) in
      record {
        counted =
            omega (
              arith,
              s.counted,
              length-append file (line ∷ []),
              length-append log.entries (e ∷ []),
            );
        loads =
            load_from-append sha256 cipher json hex 0 file line
              (no_hash, empty_log log.log_id log.at_rest)
            ∙ rw (s.loads, next, last_hash-append log.entries e)
                (load_line-Prepared sha256 cipher json hex ts drawn event log e line n p);
      }

  -- One call of `append`: how its write ends, the clock, the random draw and the event.
  pub record Call : Type 0 where
    pub outcome : Outcome
    pub ts : ℕ
    pub drawn : Option Bytes
    pub event : AuditEvent

  -- A call whose write does not stop between the line and the flush, with a nonce of its size.
  abbrev pub IsSound : Call → Type 0
  IsSound c =
      (c.outcome ≢ not_synced) × ((nonce : Bytes) → c.drawn ≡ some nonce → length nonce ≡ nonce_len)

  unfoldable pub append_all :
      List Call → TransparencyLog × List Bytes → TransparencyLog × List Bytes
  unfolding append
  append_all [] s = s
  append_all (c ∷ cs) (log, file) =
      append_all cs (append sha256 cipher json hex c.outcome c.ts c.drawn c.event log file).1

  append-IsSynced :
      (c : Call) (log : TransparencyLog) (file : List Bytes)
      → IsSound c
      → IsSynced log file
      → let s = (append sha256 cipher json hex c.outcome c.ts c.drawn c.event log file).1 in
        IsSynced s.0 s.1
  unfolding append commit
  append-IsSynced c log file h s =
      go (prepare sha256 cipher json hex c.ts c.drawn c.event log) refl c.outcome h.0
    where
      go :
          (r : Result (LogEntry × Bytes))
          → prepare sha256 cipher json hex c.ts c.drawn c.event log ≡ r
          → (o : Outcome) → o ≢ not_synced
          → IsSynced
              (commit sha256 cipher json hex o r log file).1.0
              (commit sha256 cipher json hex o r log file).1.1
      go (err e) eq o ne = s
      go (ok (e, line)) eq not_written ne = s
      go (ok (e, line)) eq not_synced ne = absurd (ne refl)
      go (ok (e, line)) eq written ne =
          written-IsSynced c.ts c.drawn c.event log file e line h.1
            (prepare-Prepared sha256 cipher json hex c.ts c.drawn c.event log e line eq) s

  kept_id :
      (c : Call) (log : TransparencyLog) (file : List Bytes)
      → let s = (append sha256 cipher json hex c.outcome c.ts c.drawn c.event log file).1.0 in
        (s.log_id ≡ log.log_id) × (s.at_rest ≡ log.at_rest)
  unfolding append commit push_entry
  kept_id c log file = go (prepare sha256 cipher json hex c.ts c.drawn c.event log) c.outcome
    where
      go :
          (r : Result (LogEntry × Bytes)) (o : Outcome)
          → ((commit sha256 cipher json hex o r log file).1.0.log_id ≡ log.log_id)
            × ((commit sha256 cipher json hex o r log file).1.0.at_rest ≡ log.at_rest)
      go (err e) o = (refl, refl)
      go (ok (e, line)) not_written = (refl, refl)
      go (ok (e, line)) not_synced = (refl, refl)
      go (ok (e, line)) written = (refl, refl)

  run-IsSynced :
      (cs : List Call) (log : TransparencyLog) (file : List Bytes)
      → All IsSound cs
      → IsSynced log file
      → let s = append_all cs (log, file) in
        IsSynced s.0 s.1 × (s.0.log_id ≡ log.log_id) × (s.0.at_rest ≡ log.at_rest)
  unfolding append_all
  run-IsSynced [] log file h s = (s, refl, refl)
  run-IsSynced (c ∷ cs) log file h s =
      let s' = (append sha256 cipher json hex c.outcome c.ts c.drawn c.event log file).1 in
      let (synced, id, key) = run-IsSynced cs s'.0 s'.1 h.1 (append-IsSynced c log file h.0 s) in
      let kept = kept_id c log file in (synced, id ∙ kept.0, key ∙ kept.1)

  IsSynced-opens :
      (log_id : Bytes) (at_rest : Option Bytes) (log : TransparencyLog) (file : List Bytes)
      → IsSynced log file
      → log.log_id ≡ log_id
      → log.at_rest ≡ at_rest
      → open_inner sha256 cipher json hex log_id at_rest file ≡ ok log
  unfolding open_inner
  IsSynced-opens log_id at_rest log file s id key = rw (← id, ← key, s.loads) refl

  -- After any calls of `append` on a new log, plain or encrypted, none of whose writes stopped between
  -- the line and the flush, the file opens as the log that is in memory, all checks passed.
  pub open_inner-append_all :
      (log_id : Bytes) (at_rest : Option Bytes) (cs : List Call)
      → All IsSound cs
      → let s = append_all cs (empty_log log_id at_rest, []) in
        open_inner sha256 cipher json hex log_id at_rest s.1 ≡ ok s.0
  open_inner-append_all log_id at_rest cs h =
      let s = append_all cs (empty_log log_id at_rest, []) in
      let (synced, id, key) =
        run-IsSynced cs (empty_log log_id at_rest) [] h (new-IsSynced log_id at_rest) in
      IsSynced-opens log_id at_rest s.0 s.1 synced (id ∙ (unfold empty_log in refl))
        (key ∙ (unfold empty_log in refl))
