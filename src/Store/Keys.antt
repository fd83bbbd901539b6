-- ===== src/Store/Keys.antt =====
-- The data key of a repository, in the store of secgit-store: it is made once and then stays.
use secgit.Prelude.{String, ◌≡◌, refl, ap, ◌∙◌, Option, none, some, Bytes, length}
use secgit.Prelude.Maps.{lookup-insert_self}
use secgit.Crypto.Error.{backend}
use secgit.Crypto.Error as Crypto
use secgit.Crypto.Aead.{Cipher, nonce_len, or_err, wrap_key, unwrap_key}
use secgit.Crypto.Aead.RoundTrip.{unwrap_key-wrap_key, or_err-ok}
use secgit.Store.{
  Result, ok, crypto, RepoDir, Disk, Action, continue, from_crypto, Draws, EncryptedStore, repo_dir,
  set_dir, create_dek, load_dek, repo_dek,
}

-- A step that is followed by others and ended well.
pub continue-ok :
    {A B : Type 0} (p : Result A × Disk) (f : A → Action B) {b : B} {d' : Disk}
    → continue p f ≡ (ok b, d')
    → (a : A) × (d1 : Disk) × (p ≡ (ok a, d1)) × (f a d1 ≡ (ok b, d'))
continue-ok (ok a, d) f h = (a, d, refl, h)
continue-ok (crypto e, d) f h = cc

pub from_crypto-ok :
    {A : Type 0} (r : Crypto.Result A) {a : A} {d d' : Disk}
    → from_crypto r d ≡ (ok a, d')
    → (r ≡ Crypto.ok a) × (d ≡ d')
unfolding from_crypto
from_crypto-ok (Crypto.ok a) h = (cc, cc)
from_crypto-ok (Crypto.err e) h = cc

-- The draws have the sizes that the code asks for.
pub record IsSized (draws : Draws) : Type 0 where
  pub dek : (b : Bytes) → draws.dek ≡ some b → length b ≡ 32
  pub wrap_nonce : (b : Bytes) → draws.wrap_nonce ≡ some b → length b ≡ nonce_len
  pub seal_nonce : (b : Bytes) → draws.seal_nonce ≡ some b → length b ≡ nonce_len

module _ (cipher : Cipher) (digest_name : String → String) where
  pub repo_dir-set_dir :
      (repo_id : String) (dir : RepoDir) (d : Disk)
      → repo_dir digest_name repo_id (set_dir digest_name repo_id dir d) ≡ dir
  unfolding repo_dir set_dir
  repo_dir-set_dir repo_id dir d = rw (lookup-insert_self (digest_name repo_id) dir d)

  -- The repository's key file unwraps to this data key.
  pub record Unlocks (s : EncryptedStore) (repo_id : String) (dek : Bytes) (d : Disk) : Type 0 where
    pub wrapped : Bytes
    pub on_disk : (repo_dir digest_name repo_id d).dek_file ≡ some wrapped
    pub opens : unwrap_key cipher s.kek wrapped ≡ Crypto.ok dek

  pub set_dir-Unlocks :
      (s : EncryptedStore) (repo_id : String) (dek wrapped : Bytes) (dir : RepoDir) (d : Disk)
      → dir.dek_file ≡ some wrapped
      → unwrap_key cipher s.kek wrapped ≡ Crypto.ok dek
      → Unlocks s repo_id dek (set_dir digest_name repo_id dir d)
  set_dir-Unlocks s repo_id dek wrapped dir d file opens = record {
    wrapped = wrapped;
    on_disk = ap (λ t. t.dek_file) (repo_dir-set_dir repo_id dir d) ∙ file;
    opens = opens;
  }

  -- What `load_dek` does with the directory that it was given.
  load_dek-Unlocks :
      (s : EncryptedStore) (draws : Draws) (repo_id : String) (dir : RepoDir) (file : Option Bytes)
      (d d' : Disk) (dek : Bytes)
      → IsSized draws
      → dir.dek_file ≡ file
      → load_dek cipher digest_name s draws repo_id dir file (set_dir digest_name repo_id dir d)
        ≡ (ok dek, d')
      → Unlocks s repo_id dek d'
  unfolding load_dek create_dek
  load_dek-Unlocks s draws repo_id dir (some w) d d' dek sized file h =
      let (opens, same) = from_crypto-ok (unwrap_key cipher s.kek w) h in
      rw (← same) (set_dir-Unlocks s repo_id dek w dir d file opens)
  load_dek-Unlocks s draws repo_id dir none d d' dek sized file h =
      let (fresh, d1, drawn, h1) = continue-ok (from_crypto (or_err draws.dek backend) _) _ h in
      let (wrapped, d2, made, h2) =
        continue-ok (from_crypto (wrap_key cipher draws.wrap_nonce s.aead s.kek fresh) d1) _ h1 in
      let sized_dek = sized.dek fresh (or_err-ok draws.dek backend (from_crypto-ok _ drawn).0) in
      let opens =
        unwrap_key-wrap_key cipher draws.wrap_nonce s.aead s.kek fresh wrapped sized.wrap_nonce
          sized_dek (from_crypto-ok _ made).0 in
      let whose : fresh ≡ dek = cc h2 in
      let disk : set_dir digest_name repo_id (record dir { dek_file = some wrapped }) d2 ≡ d' =
        cc h2 in
      rw (← whose, ← disk) (set_dir-Unlocks s repo_id fresh wrapped _ d2 refl opens)

  pub repo_dek-Unlocks :
      (s : EncryptedStore) (draws : Draws) (repo_id : String) (d d' : Disk) (dek : Bytes)
      → IsSized draws
      → repo_dek cipher digest_name s draws repo_id d ≡ (ok dek, d')
      → Unlocks s repo_id dek d'
  unfolding repo_dek
  repo_dek-Unlocks s draws repo_id d d' dek sized h =
      let dir = repo_dir digest_name repo_id d in
      load_dek-Unlocks s draws repo_id dir dir.dek_file d d' dek sized refl h

  -- Once a repository has a key, it is that key which every later call uses.
  pub repo_dek_again :
      (s : EncryptedStore) (draws : Draws) (repo_id : String) (d : Disk) (dek : Bytes)
      → Unlocks s repo_id dek d
      → repo_dek cipher digest_name s draws repo_id d
        ≡ (ok dek, set_dir digest_name repo_id (repo_dir digest_name repo_id d) d)
  unfolding repo_dek load_dek from_crypto
  repo_dek_again s draws repo_id d dek u = rw (u.on_disk, load_dek, u.opens)
