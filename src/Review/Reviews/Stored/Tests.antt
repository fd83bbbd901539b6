-- ===== src/Review/Reviews/Stored/Tests.antt =====
-- An index kept in the modelled encrypted store, and the theorem on it at a concrete input.
use secgit.Prelude.{
  ◌≡◌, refl, String, List, [], ◌∷◌, Bytes, str_eq, eq_iff, bytes_eq, if◌then◌else◌, Bool-cases, inl,
  inr,
}
use secgit.Crypto.Error.{CryptoError}
use secgit.Crypto.Tests.{toy_cipher}
use secgit.Store.{put as store_put, get as store_get}
use secgit.Store.Tests.{plain_name, draws, draws-IsSized, store}
use secgit.Review.Reviews.{Outcome, done, failed, ObjectStore, Json, index_add, put, get}
use secgit.Review.Reviews.Stored.{Calls, stored}

-- A stand-in for JSON that knows two lists.
unfoldable pub to_text : List String → Outcome Bytes
to_text [] = done (0 ∷ [])
to_text (id ∷ []) = if str_eq id "pr_acme_1" then done (1 ∷ []) else failed "unknown"
to_text _ = failed "unknown"

unfoldable pub from_text : Bytes → Outcome (List String)
from_text bytes =
    if bytes_eq bytes (0 ∷ [])
    then done []
    else if bytes_eq bytes (1 ∷ [])
    then done ("pr_acme_1" ∷ [])
    else failed "unknown"

pub from_text-to_text :
    (ids : List String) (bytes : Bytes) → to_text ids ≡ done bytes → from_text bytes ≡ done ids
unfolding to_text from_text bytes_eq
from_text-to_text [] bytes h = let e : 0 ∷ [] ≡ bytes = cc in rw (← e) refl
from_text-to_text (id ∷ []) bytes h = elim (Bool-cases (str_eq id "pr_acme_1")) [
  | inl named ↦
      let e : 1 ∷ [] ≡ bytes = cc (rw named at h) in
      let same : id ≡ "pr_acme_1" = (eq_iff id "pr_acme_1").0 named in rw (← e, same) refl
  | inr other ↦ absurd (cc (rw other at h))
]
from_text-to_text (a ∷ b ∷ ids) bytes h = cc

abbrev pub ids_json : Json Bytes (List String)
ids_json = record {
  to_vec = to_text;
  from_slice = from_text;
  from_slice-to_vec = from_text-to_text;
}

abbrev pub describe : CryptoError → String
describe e = "crypto"

abbrev pub encrypted :
    ObjectStore (Calls toy_cipher plain_name describe store (λ n. draws) (λ n. draws-IsSized)) Bytes
encrypted = stored toy_cipher plain_name describe store (λ n. draws) (λ n. draws-IsSized)

abbrev after_add : Calls toy_cipher plain_name describe store (λ n. draws) (λ n. draws-IsSized)
after_add = (index_add encrypted ids_json "r" "pr/index" "pr_acme_1" ([], 0)).1
