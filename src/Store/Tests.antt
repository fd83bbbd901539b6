-- ===== src/Store/Tests.antt =====
-- Runs of the model of secgit-store, and the theorems about it at concrete inputs.
use secgit.Crypto.Aead.{wrap_key, seal}
use secgit.Prelude.Maps.{lookup}
use secgit.Prelude.{String, ◌≡◌, refl, some, none, false, [], ◌∷◌, Bytes, codes, eq_iff}
use mathlib.Core.Bool.{false≢true}
use secgit.Crypto.Error.{aes256_gcm}
use secgit.Crypto.Tests.{toy_cipher}
use secgit.Store.{
  ok, Disk, Draws, EncryptedStore, put, get, delete, delete_repo, repo_exists, repo_dek,
}
use secgit.Store.Keys.{IsSized, Unlocks, repo_dek-Unlocks}
use secgit.Store.Objects.{get-put, get-put_ne, get-delete, get-delete_repo}

-- File names that are the identifiers themselves.
abbrev pub plain_name : String → String
plain_name id = id

abbrev pub draws : Draws
draws = record {
  dek = some (codes "0123456789abcdef0123456789abcdef");
  wrap_nonce = some (codes "twelve bytes");
  seal_nonce = some (codes "nonce number");
}

pub draws-IsSized : IsSized draws
draws-IsSized = record {
  dek = λ b h. let e : codes "0123456789abcdef0123456789abcdef" ≡ b = cc in rw (← e);
  wrap_nonce = λ b h. let e : codes "twelve bytes" ≡ b = cc in rw (← e);
  seal_nonce = λ b h. let e : codes "nonce number" ≡ b = cc in rw (← e);
}

abbrev pub store : EncryptedStore
store = record { kek = 7 ∷ []; aead = aes256_gcm }

abbrev after_put : Disk
after_put = (put toy_cipher plain_name store draws "acme" "refs" (1 ∷ 2 ∷ []) []).1

put_run : put toy_cipher plain_name store draws "acme" "refs" (1 ∷ 2 ∷ []) [] ≡ (ok tt, after_put)
unfolding put toy_cipher lookup wrap_key seal
put_run = refl

get-put_example :
    (get toy_cipher plain_name store draws "acme" "refs" after_put).0 ≡ ok (some (1 ∷ 2 ∷ []))
get-put_example =
    get-put toy_cipher plain_name store draws draws "acme" "refs" (1 ∷ 2 ∷ []) [] after_put
      draws-IsSized put_run

abbrev pub dek : Bytes
dek = codes "0123456789abcdef0123456789abcdef"

abbrev pub keyed : Disk
keyed = (repo_dek toy_cipher plain_name store draws "acme" []).1

keyed_run : repo_dek toy_cipher plain_name store draws "acme" [] ≡ (ok dek, keyed)
unfolding repo_dek toy_cipher lookup wrap_key seal
keyed_run = refl

pub keyed-Unlocks : Unlocks toy_cipher plain_name store "acme" dek keyed
keyed-Unlocks =
    repo_dek-Unlocks toy_cipher plain_name store draws "acme" [] keyed dek draws-IsSized keyed_run

get-put_ne_example :
    (get toy_cipher plain_name store draws "acme" "head"
      (put toy_cipher plain_name store draws "acme" "refs" (1 ∷ []) keyed).1).0
    ≡ (get toy_cipher plain_name store draws "acme" "head" keyed).0
get-put_ne_example =
    get-put_ne toy_cipher plain_name store draws draws "acme" "refs" "head" (1 ∷ []) dek keyed
      keyed-Unlocks (λ p. false≢true ((eq_iff "refs" "head").1 p))

get-delete-sample :
    (get toy_cipher plain_name store draws "acme" "refs"
      (delete plain_name "acme" "refs" after_put).1).0
    ≡ ok none
get-delete-sample = get-delete toy_cipher plain_name store draws "acme" "refs" after_put

get-delete_repo-sample :
    (repo_exists plain_name "acme" (delete_repo plain_name "acme" after_put).1 ≡ false)
    × ((get toy_cipher plain_name store draws "acme" "refs"
          (delete_repo plain_name "acme" after_put).1).0
        ≡ ok none)
get-delete_repo-sample = get-delete_repo toy_cipher plain_name store draws "acme" "refs" after_put
