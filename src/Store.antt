-- ===== src/Store.antt =====
-- crates/secgit-store/src/lib.rs: the encrypted object store.
-- The disk maps the digest name of a repository to its directory. An operation returns its result
-- and the new disk, also where it fails; the random draws of a call are an argument. The file system
-- itself does not fail here, and a temporary file that is renamed is a write.
pub mod Keys
pub mod Objects
pub mod Tests
use secgit.Prelude.{
  ℕ, String, ◌≡◌, Bool, true, false, Option, none, some, List, [], ◌∷◌, ◌++◌, Bytes, codes,
  if◌then◌else◌,
}
use secgit.Prelude.Maps.{Map, lookup, insert, remove, contains_key}
use secgit.Crypto.Error.{CryptoError, backend, AeadScheme, default_aead}
use secgit.Crypto.Error as Crypto
use secgit.Crypto.Aead.{Cipher, or_err, seal, open_sealed, wrap_key, unwrap_key}

pub data Result {ℓ} (A : Type ℓ) : Type ℓ where
  ok : A → Result A
  crypto : CryptoError → Result A

pub record RepoDir : Type 0 where
  pub dek_file : Option Bytes
  pub objects : Map Bytes

abbrev pub Disk : Type 0
Disk = Map RepoDir

abbrev pub Action : Type 0 → Type 0
Action A = Disk → Result A × Disk

abbrev continue : {A B : Type 0} → Result A × Disk → (A → Action B) → Result B × Disk
continue (ok a, d) f = f a d
continue (crypto e, d) f = (crypto e, d)

infixl 5 ◌>>=◌
abbrev pub ◌>>=◌ : {A B : Type 0} → Action A → (A → Action B) → Action B
◌>>=◌ m f d = continue (m d) f

pub pure : {A : Type 0} → A → Action A
pure a d = (ok a, d)

pub from_crypto : {A : Type 0} → Crypto.Result A → Action A
from_crypto (Crypto.ok a) d = (ok a, d)
from_crypto (Crypto.err e) d = (crypto e, d)

-- The random bytes that one call may draw: a new data key, and the nonces of the wrap and the seal.
pub record Draws : Type 0 where
  pub dek : Option Bytes
  pub wrap_nonce : Option Bytes
  pub seal_nonce : Option Bytes

abbrev pub empty_dir : RepoDir
empty_dir = record { dek_file = none; objects = [] }

dir_or_new : Option RepoDir → RepoDir
dir_or_new none = empty_dir
dir_or_new (some dir) = dir

-- `b"secgit/object/v1\0"`, the repository, a zero byte and the key.
unfoldable pub aad : String → String → Bytes
aad repo_id key = codes "secgit/object/v1" ++ 0 ∷ (codes repo_id ++ 0 ∷ codes key)

abbrev pub seal_manifest_key : String
seal_manifest_key = "seal.manifest"

pub record EncryptedStore : Type 0 where
  pub kek : Bytes
  pub aead : AeadScheme

unfoldable pub open_store : Bytes → EncryptedStore
open_store kek = record { kek = kek; aead = default_aead }

is_some : Option Bytes → Bool
is_some none = false
is_some (some b) = true

-- The name of a file is the digest of an identifier in hexadecimal.
module _ (digest_name : String → String) where
  pub repo_dir : String → Disk → RepoDir
  unfolding dir_or_new
  repo_dir repo_id d = dir_or_new (lookup (digest_name repo_id) d)

  pub set_dir : String → RepoDir → Disk → Disk
  set_dir repo_id dir d = insert (digest_name repo_id) dir d

  pub repo_exists : String → Disk → Bool
  unfolding repo_dir is_some
  repo_exists repo_id d = is_some (repo_dir repo_id d).dek_file

  pub write_object : String → String → Bytes → Action (Unit {0})
  unfolding repo_dir set_dir
  write_object repo_id key ct d =
      let dir = repo_dir repo_id d in
      (ok tt, set_dir repo_id (record dir { objects = insert (digest_name key) ct dir.objects }) d)

  delete_from : String → String → Option RepoDir → Disk → Disk
  unfolding set_dir
  delete_from repo_id key none d = d
  delete_from repo_id key (some dir) d =
      set_dir repo_id (record dir { objects = remove (digest_name key) dir.objects }) d

  pub delete : String → String → Action (Unit {0})
  unfolding delete_from
  delete repo_id key d = (ok tt, delete_from repo_id key (lookup (digest_name repo_id) d) d)

  pub delete_repo : String → Action (Unit {0})
  delete_repo repo_id d = (ok tt, remove (digest_name repo_id) d)

module _ (cipher : Cipher) (digest_name : String → String) where
  create_dek : EncryptedStore → Draws → String → RepoDir → Action Bytes
  unfolding pure from_crypto set_dir or_err
  create_dek s draws repo_id dir = do
    dek ← from_crypto (or_err draws.dek backend)
    wrapped ← from_crypto (wrap_key cipher draws.wrap_nonce s.aead s.kek dek)
    λ d. (ok dek, set_dir digest_name repo_id (record dir { dek_file = some wrapped }) d)

  load_dek : EncryptedStore → Draws → String → RepoDir → Option Bytes → Action Bytes
  unfolding from_crypto create_dek
  load_dek s draws repo_id dir (some wrapped) = from_crypto (unwrap_key cipher s.kek wrapped)
  load_dek s draws repo_id dir none = create_dek s draws repo_id dir

  -- `create_dir_all` leaves the directory behind, whatever follows.
  pub repo_dek : EncryptedStore → Draws → String → Action Bytes
  unfolding repo_dir set_dir load_dek
  repo_dek s draws repo_id d =
      let dir = repo_dir digest_name repo_id d in
      load_dek s draws repo_id dir dir.dek_file (set_dir digest_name repo_id dir d)

  pub init_repo : EncryptedStore → Draws → String → Action (Unit {0})
  unfolding repo_dek pure
  init_repo s draws repo_id = do dek ← repo_dek s draws repo_id; pure tt

  unfoldable pub put : EncryptedStore → Draws → String → String → Bytes → Action (Unit {0})
  unfolding repo_dek from_crypto write_object
  put s draws repo_id key plaintext = do
    dek ← repo_dek s draws repo_id
    ct ← from_crypto (seal cipher draws.seal_nonce s.aead dek (aad repo_id key) plaintext)
    write_object digest_name repo_id key ct

  read_object : EncryptedStore → Draws → String → String → Option Bytes → Action (Option Bytes)
  unfolding pure repo_dek from_crypto
  read_object s draws repo_id key none = pure none
  read_object s draws repo_id key (some ct) = do
    dek ← repo_dek s draws repo_id
    pt ← from_crypto (open_sealed cipher dek (aad repo_id key) ct)
    pure (some pt)

  unfoldable pub get : EncryptedStore → Draws → String → String → Action (Option Bytes)
  unfolding read_object repo_dir
  get s draws repo_id key d =
      read_object s draws repo_id key
        (lookup (digest_name key) (repo_dir digest_name repo_id d).objects) d

  pub put_manifest : EncryptedStore → Draws → String → Bytes → Action (Unit {0})
  unfolding put
  put_manifest s draws repo_id bytes = put s draws repo_id seal_manifest_key bytes

  pub get_manifest : EncryptedStore → Draws → String → Action (Option Bytes)
  unfolding get
  get_manifest s draws repo_id = get s draws repo_id seal_manifest_key
