-- ===== src/Review/Reviews/Stored.antt =====
-- The interface that the reviews take, filled by the encrypted store of Store. Each call has draws of
-- its own, the next ones of a supply. A read is taken for its result: where the repository has a data
-- key that opens, it leaves the key and the objects as they were.
pub mod Tests
use secgit.Prelude.{ℕ, suc, ◌≡◌, ap, ap₂, String, Option, Bytes}
use secgit.Crypto.Error.{CryptoError}
use secgit.Crypto.Aead.{Cipher}
use secgit.Store.{Draws, Disk, EncryptedStore, repo_dir, put, get}
use secgit.Store
use secgit.Store.Keys.{IsSized, Unlocks}
use secgit.Store.Objects.{get-put, put-Unlocks, get-put_ne_later}
use secgit.Review.Reviews.{Outcome, done, failed, ObjectStore}

module _ (cipher : Cipher) (digest_name : String → String) (describe : CryptoError → String)
    (s : EncryptedStore) (supply : ℕ → Draws) (sized : (n : ℕ) → IsSized (supply n)) where
  unfoldable pub outcome : {A : Type 0} → Store.Result A → Outcome A
  outcome (Store.ok a) = done a
  outcome (Store.crypto e) = failed (describe e)

  -- The disk, and how many writes there were.
  abbrev pub Calls : Type 0
  Calls = Disk × ℕ

  unfoldable pub write : String → String → Bytes → Calls → Outcome (Unit {0}) × Calls
  unfolding outcome
  write repo_id key bytes (d, n) =
      let (r, d') = put cipher digest_name s (supply n) repo_id key bytes d in
      (outcome r, (d', suc n))

  unfoldable pub read : String → String → Calls → Outcome (Option Bytes)
  unfolding outcome
  read repo_id key (d, n) = outcome (get cipher digest_name s (supply n) repo_id key d).0

  outcome_done : {A : Type 0} (r : Store.Result A) (a : A) → outcome r ≡ done a → r ≡ Store.ok a
  unfolding outcome
  outcome_done (Store.ok b) a h = cc
  outcome_done (Store.crypto e) a h = cc

  -- A write that succeeded is a `put` that did.
  pub written :
      (repo_id key : String) (bytes : Bytes) (c c' : Calls)
      → write repo_id key bytes c ≡ (done tt, c')
      → put cipher digest_name s (supply c.1) repo_id key bytes c.0 ≡ (Store.ok tt, c'.0)
  unfolding write
  written repo_id key bytes c c' h =
      let result = outcome_done _ tt (ap (λ r. r.0) h) in
      let disk : (put cipher digest_name s (supply c.1) repo_id key bytes c.0).1 ≡ c'.0 =
        ap (λ r. r.1.0) h in
      ap₂ (λ x y. (x, y)) result disk

  unfoldable pub stored : ObjectStore Calls Bytes
  unfolding read
  stored = record {
    put = write;
    get = read;
    name = digest_name;
    Usable = λ repo_id c. (dek : Bytes) × Unlocks cipher digest_name s repo_id dek c.0;
    get-put = λ repo_id key bytes c c' h. ap outcome (
        get-put cipher digest_name s (supply c.1) (supply c'.1) repo_id key bytes c.0 c'.0
          (sized c.1) (written repo_id key bytes c c' h));
    put-Usable = λ repo_id key bytes c c' h.
        put-Unlocks cipher digest_name s (supply c.1) repo_id key bytes c.0 c'.0 (sized c.1)
          (written repo_id key bytes c c' h);
    get-put_ne = λ repo_id key other bytes c c' (dek, u) ne h. ap outcome (
        get-put_ne_later cipher digest_name s (supply c.1) (supply c.1) (supply c'.1) repo_id key
          other bytes dek c.0 c'.0 u ne (sized c.1) (written repo_id key bytes c c' h));
  }
