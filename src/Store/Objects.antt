-- ===== src/Store/Objects.antt =====
-- secgit-store: what `get` returns after `put`, `delete` and `delete_repo`.
use secgit.Prelude.{
  String, ◌≡◌, ◌≢◌, refl, ap, sym, ◌∙◌, false, Option, none, some, Bytes, arith, eq_iff, eq_refl,
}
use secgit.Prelude.Maps.{lookup, insert, remove, lookup-insert, lookup-insert_self, lookup-remove}
use secgit.Crypto.Error as Crypto
use secgit.Crypto.Aead.{Cipher, seal, open_sealed}
use secgit.Crypto.Aead.RoundTrip.{open_sealed-seal}
use secgit.Store.{
  Result, ok, crypto, RepoDir, Disk, ◌>>=◌, pure, from_crypto, Draws, dir_or_new, EncryptedStore,
  repo_dir, set_dir, repo_dek, repo_exists, write_object, put, read_object, get, delete,
  delete_from, delete_repo, aad,
}
use secgit.Store.Keys.{
  continue-ok, from_crypto-ok, IsSized, repo_dir-set_dir, Unlocks, set_dir-Unlocks,
  repo_dek-Unlocks, repo_dek_again,
}

module _ (cipher : Cipher) (digest_name : String → String) where
  opened : Crypto.Result Bytes → Result (Option Bytes)
  opened (Crypto.ok pt) = ok (some pt)
  opened (Crypto.err e) = crypto e

  reply :
      (r : Crypto.Result Bytes) (d : Disk)
      → ((from_crypto r >>= λ (pt : Bytes). pure (some pt)) d).0 ≡ opened r
  unfolding from_crypto pure opened
  reply (Crypto.ok pt) d = refl
  reply (Crypto.err x) d = refl

  -- A stored object is read through the repository's key.
  read-Unlocks :
      (s : EncryptedStore) (draws : Draws) (repo_id key : String) (d : Disk) (dek ct : Bytes)
      → Unlocks cipher digest_name s repo_id dek d
      → lookup (digest_name key) (repo_dir digest_name repo_id d).objects ≡ some ct
      → (get cipher digest_name s draws repo_id key d).0
        ≡ opened (open_sealed cipher dek (aad repo_id key) ct)
  unfolding get read_object from_crypto pure
  read-Unlocks s draws repo_id key d dek ct u e =
      rw (e, read_object, repo_dek_again cipher digest_name s draws repo_id d dek u)
        (reply (open_sealed cipher dek (aad repo_id key) ct) _)

  -- Stored bytes come back: after a successful `put`, `get` of the same repository and key returns
  -- them, with whatever draws it makes, if the draws of the `put` had their sizes.
  pub get-put :
      (s : EncryptedStore) (draws later : Draws) (repo_id key : String) (plaintext : Bytes)
      (d d' : Disk)
      → IsSized draws
      → put cipher digest_name s draws repo_id key plaintext d ≡ (ok tt, d')
      → (get cipher digest_name s later repo_id key d').0 ≡ ok (some plaintext)
  unfolding put write_object opened
  get-put s draws later repo_id key plaintext d d' sized h =
      let (dek, d1, keyed, h1) = continue-ok (repo_dek cipher digest_name s draws repo_id d) _ h in
      let (ct, d2, sealed, h2) =
        continue-ok
          (from_crypto (seal cipher draws.seal_nonce s.aead dek (aad repo_id key) plaintext) d1) _
          h1 in
      let (made, same) = from_crypto-ok _ sealed in
      let u = repo_dek-Unlocks cipher digest_name s draws repo_id d d1 dek sized keyed in
      let opens =
        open_sealed-seal cipher draws.seal_nonce s.aead dek (aad repo_id key) plaintext ct
          sized.seal_nonce made in
      let dir = repo_dir digest_name repo_id d2 in
      let dir' : RepoDir = record dir { objects = insert (digest_name key) ct dir.objects } in
      let disk : set_dir digest_name repo_id dir' d2 ≡ d' = cc h2 in
      let u2 : Unlocks cipher digest_name s repo_id dek d2 = rw same at u in
      let u' =
        set_dir-Unlocks cipher digest_name s repo_id dek u2.wrapped dir' d2 u2.on_disk u2.opens in
      let stored : lookup (digest_name key)
            (repo_dir digest_name repo_id (set_dir digest_name repo_id dir' d2)).objects
          ≡ some ct =
        rw (repo_dir-set_dir cipher digest_name repo_id dir' d2)
          (lookup-insert_self (digest_name key) ct dir.objects) in
      rw (← disk) (
        read-Unlocks s later repo_id key (set_dir digest_name repo_id dir' d2) dek ct u' stored
        ∙ ap opened opens)

  gone_from :
      (repo_id key : String) (d : Disk) (o : Option RepoDir)
      → lookup (digest_name repo_id) d ≡ o
      → lookup
          (digest_name key)
          (repo_dir digest_name repo_id (delete_from digest_name repo_id key o d)).objects
        ≡ none
  unfolding delete_from
  gone_from repo_id key d none e = unfold repo_dir dir_or_new lookup in rw e
  gone_from repo_id key d (some dir) e =
      rw
        (repo_dir-set_dir cipher digest_name repo_id
          (record dir { objects = remove (digest_name key) dir.objects }) d)
        (simp (lookup-remove, eq_refl))

  -- After `delete`, the key is gone.
  pub get-delete :
      (s : EncryptedStore) (draws : Draws) (repo_id key : String) (d : Disk)
      → (get cipher digest_name s draws repo_id key (delete digest_name repo_id key d).1).0
        ≡ ok none
  unfolding get delete read_object pure
  get-delete s draws repo_id key d =
      rw (gone_from repo_id key d (lookup (digest_name repo_id) d) refl, read_object)

  -- After `delete_repo`, the repository does not exist and none of its objects can be read.
  pub get-delete_repo :
      (s : EncryptedStore) (draws : Draws) (repo_id key : String) (d : Disk)
      → (repo_exists digest_name repo_id (delete_repo digest_name repo_id d).1 ≡ false)
        × ((get cipher digest_name s draws repo_id key (delete_repo digest_name repo_id d).1).0
            ≡ ok none)
  unfolding get repo_exists delete_repo read_object pure repo_dir dir_or_new lookup
  get-delete_repo s draws repo_id key d =
      let gone : lookup (digest_name repo_id) (remove (digest_name repo_id) d) ≡ none =
        simp (lookup-remove, eq_refl) in
      (rw gone, rw gone)

  pub shown : Bytes → Bytes → Option Bytes → Result (Option Bytes)
  shown dek bound none = ok none
  shown dek bound (some ct) = opened (open_sealed cipher dek bound ct)

  -- With a key in place, `get` depends on the key and the object alone.
  pub get-shown :
      (s : EncryptedStore) (draws : Draws) (repo_id key : String) (d : Disk) (dek : Bytes)
      (object : Option Bytes)
      → Unlocks cipher digest_name s repo_id dek d
      → lookup (digest_name key) (repo_dir digest_name repo_id d).objects ≡ object
      → (get cipher digest_name s draws repo_id key d).0 ≡ shown dek (aad repo_id key) object
  unfolding shown
  get-shown s draws repo_id key d dek none u e = unfold get read_object pure in rw (e, read_object)
  get-shown s draws repo_id key d dek (some ct) u e = read-Unlocks s draws repo_id key d dek ct u e

  -- The disk that a `put` leaves, for each outcome of the seal.
  after_seal :
      (s : EncryptedStore) (repo_id key other : String) (dek : Bytes) (r : Crypto.Result Bytes)
      (d : Disk)
      → digest_name key ≢ digest_name other
      → Unlocks cipher digest_name s repo_id dek d
      → Unlocks cipher digest_name s repo_id dek
          ((from_crypto r >>= λ (ct : Bytes). write_object digest_name repo_id key ct) d).1
        × (lookup
              (digest_name other)
              (repo_dir digest_name repo_id
                ((from_crypto r >>= λ (ct : Bytes). write_object digest_name repo_id key ct)
                  d).1).objects
            ≡ lookup (digest_name other) (repo_dir digest_name repo_id d).objects)
  unfolding from_crypto write_object
  after_seal s repo_id key other dek (Crypto.err e) d ne u = (u, refl)
  after_seal s repo_id key other dek (Crypto.ok ct) d ne u =
      let dir = repo_dir digest_name repo_id d in
      let dir' : RepoDir = record dir { objects = insert (digest_name key) ct dir.objects } in
      (
        set_dir-Unlocks cipher digest_name s repo_id dek u.wrapped dir' d u.on_disk u.opens,
        rw
            (
              repo_dir-set_dir cipher digest_name repo_id dir' d,
              lookup-insert (digest_name key) (digest_name other) ct dir.objects,
            )
            (ground (arith, eq_iff (digest_name key) (digest_name other))),
      )

  -- In a repository that has a data key which opens, an object whose file has another name keeps what
  -- `get` returns, whether a `put` succeeds or fails.
  pub get-put_ne :
      (s : EncryptedStore) (draws later : Draws) (repo_id key other : String)
      (plaintext dek : Bytes) (d : Disk)
      → Unlocks cipher digest_name s repo_id dek d
      → digest_name key ≢ digest_name other
      → (get cipher digest_name s later repo_id other
          (put cipher digest_name s draws repo_id key plaintext d).1).0
        ≡ (get cipher digest_name s later repo_id other d).0
  unfolding put
  get-put_ne s draws later repo_id key other plaintext dek d u ne =
      let dir = repo_dir digest_name repo_id d in
      let d1 = set_dir digest_name repo_id dir d in
      let u1 = set_dir-Unlocks cipher digest_name s repo_id dek u.wrapped dir d u.on_disk u.opens in
      let sealed = seal cipher draws.seal_nonce s.aead dek (aad repo_id key) plaintext in
      let (u2, kept) = after_seal s repo_id key other dek sealed d1 ne u1 in
      let same : lookup (digest_name other) (repo_dir digest_name repo_id d1).objects
          ≡ lookup (digest_name other) dir.objects =
        rw (repo_dir-set_dir cipher digest_name repo_id dir d) in
      rw (repo_dek_again cipher digest_name s draws repo_id d dek u) (
        get-shown s later repo_id other _ dek (lookup (digest_name other) dir.objects) u2
          (kept ∙ same)
        ∙ sym
            (get-shown s later repo_id other d dek (lookup (digest_name other) dir.objects) u refl))

  -- With a key in place, what `get` returns does not depend on the draws it is given.
  pub get-draws :
      (s : EncryptedStore) (draws later : Draws) (repo_id key : String) (dek : Bytes) (d : Disk)
      → Unlocks cipher digest_name s repo_id dek d
      → (get cipher digest_name s draws repo_id key d).0
        ≡ (get cipher digest_name s later repo_id key d).0
  get-draws s draws later repo_id key dek d u =
      get-shown s draws repo_id key d dek _ u refl
      ∙ sym (get-shown s later repo_id key d dek _ u refl)

  -- After a `put` that succeeded the repository has a key that opens.
  pub put-Unlocks :
      (s : EncryptedStore) (draws : Draws) (repo_id key : String) (plaintext : Bytes) (d d' : Disk)
      → IsSized draws
      → put cipher digest_name s draws repo_id key plaintext d ≡ (ok tt, d')
      → (dek : Bytes) × Unlocks cipher digest_name s repo_id dek d'
  unfolding put write_object
  put-Unlocks s draws repo_id key plaintext d d' sized h =
      let (dek, d1, keyed, h1) = continue-ok (repo_dek cipher digest_name s draws repo_id d) _ h in
      let (ct, d2, sealed, h2) =
        continue-ok
          (from_crypto (seal cipher draws.seal_nonce s.aead dek (aad repo_id key) plaintext) d1) _
          h1 in
      let (made, same) = from_crypto-ok _ sealed in
      let u = repo_dek-Unlocks cipher digest_name s draws repo_id d d1 dek sized keyed in
      let dir = repo_dir digest_name repo_id d2 in
      let dir' : RepoDir = record dir { objects = insert (digest_name key) ct dir.objects } in
      let disk : set_dir digest_name repo_id dir' d2 ≡ d' = cc h2 in
      let u2 : Unlocks cipher digest_name s repo_id dek d2 = rw same at u in
      (
        dek,
        rw (← disk) (
            set_dir-Unlocks cipher digest_name s repo_id dek u2.wrapped dir' d2 u2.on_disk
              u2.opens),
      )

  -- An object under another name keeps what `get` returns, also with later draws.
  pub get-put_ne_later :
      (s : EncryptedStore) (draws first later : Draws) (repo_id key other : String)
      (plaintext dek : Bytes) (d d' : Disk)
      → Unlocks cipher digest_name s repo_id dek d
      → digest_name key ≢ digest_name other
      → IsSized draws
      → put cipher digest_name s draws repo_id key plaintext d ≡ (ok tt, d')
      → (get cipher digest_name s later repo_id other d').0
        ≡ (get cipher digest_name s first repo_id other d).0
  get-put_ne_later s draws first later repo_id key other plaintext dek d d' u ne sized h =
      let disk : (put cipher digest_name s draws repo_id key plaintext d).1 ≡ d' =
        ap (λ r. r.1) h in
      let (dek', u') = put-Unlocks s draws repo_id key plaintext d d' sized h in
      get-draws s later first repo_id other dek' d' u'
      ∙ ap (λ t. (get cipher digest_name s first repo_id other t).0) (sym disk)
      ∙ get-put_ne s draws first repo_id key other plaintext dek d u ne
