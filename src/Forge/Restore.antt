-- ===== src/Forge/Restore.antt =====
-- forge/src/lib.rs, `restore_from_store`: every payload in order, then the refs.
use secgit.Prelude.{ℕ, not, Option, none, some, List, [], ◌∷◌, Bytes, if◌then◌else◌, length}
use secgit.Forge.{
  ForgeError, Result, ok, err, ◌>>=◌, RefTip, Segment, SealManifest, last_tips, total_size, Git,
  SealStore, ManifestJson,
}
use secgit.Forge

module _ {Repo Disk : Type 0} (git : Git Repo) (store : SealStore Disk) (json : ManifestJson) where
  open git use {init_bare, clone_bare, unbundle, update_ref, set_head}
  open store use {get_manifest, get_segment, get_legacy}

  payload : Option Bytes → Result Bytes
  payload none = err (Forge.store "seal segment referenced by manifest is missing")
  payload (some bytes) = ok bytes

  pub apply_segment : Segment → Repo → Disk → Result Repo
  unfolding payload
  apply_segment s t d =
      let unbundled = (do found ← get_segment s.index d; bytes ← payload found; unbundle bytes t) in
      if not s.has_payload then ok t else unbundled

  pub apply_segments : List Segment → Repo → Disk → Result Repo
  unfolding apply_segment
  apply_segments [] t d = ok t
  apply_segments (s ∷ ss) t d = do t' ← apply_segment s t d; apply_segments ss t' d

  set_refs : List RefTip → Repo → Result Repo
  set_refs [] t = ok t
  set_refs (tip ∷ tips) t = do t' ← update_ref tip.name tip.oid t; set_refs tips t'

  or_same : Result Repo → Repo → Repo
  or_same (ok t') t = t'
  or_same (err e) t = t

  with_head : Option Bytes → Repo → Repo
  unfolding or_same
  with_head none t = t
  with_head (some head) t = or_same (set_head head t) t

  restore_manifest : SealManifest → Disk → Result (Option Repo)
  unfolding apply_segments set_refs with_head
  restore_manifest m d = do
    t0 ← init_bare
    t ← apply_segments m.segments t0 d
    t' ← set_refs (last_tips m) t
    ok (some (with_head m.head t'))

  restore_legacy : Option Bytes → Result (Option Repo)
  restore_legacy none = ok none
  restore_legacy (some bytes) = do t ← clone_bare bytes; ok (some t)

  restore_found : Option Bytes → Disk → Result (Option Repo)
  unfolding restore_manifest restore_legacy
  restore_found none d = do bytes ← get_legacy d; restore_legacy bytes
  restore_found (some bytes) d = do m ← json.from_slice bytes; restore_manifest m d

  -- The repository that is restored, `none` where nothing is sealed.
  pub restore_from_store : Disk → Result (Option Repo)
  unfolding restore_found
  restore_from_store d = do found ← get_manifest d; restore_found found d

  size_or_zero : Option Bytes → ℕ
  size_or_zero none = 0
  size_or_zero (some bytes) = length bytes

  size_of : Option Bytes → Disk → Result ℕ
  unfolding size_or_zero
  size_of (some bytes) d = do m ← json.from_slice bytes; ok (total_size m)
  size_of none d = do bytes ← get_legacy d; ok (size_or_zero bytes)

  pub sealed_size : Disk → Result ℕ
  unfolding size_of
  sealed_size d = do found ← get_manifest d; size_of found d
