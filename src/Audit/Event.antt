-- ===== src/Audit/Event.antt =====
-- crates/secgit-audit/src/lib.rs: the events, the log entries, the errors and the checkpoint's bytes.
use secgit.Prelude.{ℕ, zero, suc, String, [], ◌∷◌, ◌++◌, Bytes, codes}
use secgit.Prelude.Words.{le_bytes}

pub data AuditError : Type 0 where
  io serde crypto : AuditError
  integrity : String → AuditError

pub data Result {ℓ} (A : Type ℓ) : Type ℓ where
  ok : A → Result A
  err : AuditError → Result A

infixl 5 ◌>>=◌
abbrev pub ◌>>=◌ {ℓ κ} : {A : Type ℓ} {B : Type κ} → Result A → (A → Result B) → Result B
ok value >>= next = next value
err e >>= next = err e

pub data AuditEvent : Type 0 where
  repo_created : (repo_id owner : String) → AuditEvent
  ref_updated : (repo_id reference old new actor : String) → AuditEvent
  key_released : (resource_id measurement_hex : String) → AuditEvent
  key_rotated : (resource_id : String) → AuditEvent
  access_denied : (repo_id actor reason : String) → AuditEvent
  admin : (action actor : String) → AuditEvent

pub record LogEntry : Type 0 where
  pub seq : ℕ
  pub timestamp : ℕ
  pub prev_hash : Bytes
  pub event : AuditEvent
  pub entry_hash : Bytes

unfoldable pub entry_bytes : ℕ → ℕ → Bytes → Bytes → Bytes
entry_bytes seq ts prev event_json =
    codes "secgit/audit/entry/v1" ++ 0 ∷ (le_bytes 8 seq ++ (le_bytes 8 ts ++ (prev ++ event_json)))

unfoldable pub compute_entry_hash : (Bytes → Bytes) → ℕ → ℕ → Bytes → Bytes → Bytes
unfolding entry_bytes
compute_entry_hash sha256 seq ts prev event_json = sha256 (entry_bytes seq ts prev event_json)

-- `[0u8; 32]`, what the first entry commits to.
zero_bytes : ℕ → Bytes
zero_bytes zero = []
zero_bytes (suc n) = 0 ∷ zero_bytes n

unfoldable pub no_hash : Bytes
unfolding zero_bytes
no_hash = zero_bytes 32
