-- ===== src/Forge/Seal.antt =====
-- forge/src/lib.rs, `seal_to_store`: a base, a delta, or a compaction, then the manifest.
pub mod Manifest
pub mod Tests
use secgit.Prelude.{
  ℕ, zero, suc, ◌+◌, ◌%◌, ◌^◌, ◌≡◌, Bool, true, false, not, ◌&&◌, Option, none, some, List, [], ◌∷◌,
  ◌++◌, Bytes, length, bytes_eq, leb, if◌then◌else◌,
}
use secgit.Forge.{
  ForgeError, not_found, Result, ok, err, RefTip, Segment, SealManifest, default_manifest, last_of,
  last_tips, total_size, tips_oids, parse_lines, sort_by_name, has_token, is_empty, Git, SealStore,
  ManifestJson,
}
use secgit.Forge.{◌>>=◌ as bind}

pub eq_tips : List RefTip → List RefTip → Bool
eq_tips [] [] = true
eq_tips (t ∷ ts) (u ∷ us) = bytes_eq t.name u.name && bytes_eq t.oid u.oid && eq_tips ts us
eq_tips _ _ = false

eq_head : Option Bytes → Option Bytes → Bool
eq_head none none = true
eq_head (some a) (some b) = bytes_eq a b
eq_head _ _ = false

pub next_index : Option Segment → ℕ
next_index none = 0
next_index (some s) = s.index + 1

non_empty : Bytes → Option Bytes
non_empty head = if not (is_empty head) then some head else none

head_or : Result Bytes → Option Bytes
unfolding non_empty
head_or (err e) = none
head_or (ok head) = non_empty head

module _ {Repo Disk : Type 0} (git : Git Repo) (store : SealStore Disk) (json : ManifestJson)
    (max_segments : ℕ) where
  open git use {for_each_ref, symbolic_ref, cat_file, rev_list, bundle_create}
  open store use {init_repo, get_manifest, put_manifest, put_segment, delete_segment, delete_legacy}

  abbrev pub Step : Type 0 → Type 0
  Step A = Disk → Result A × Disk

  abbrev pub after : {A B : Type 0} → Result A → Disk → (A → Step B) → Result B × Disk
  after (ok a) d next = next a d
  after (err e) d next = (err e, d)

  infixl 5 ◌>>=◌
  abbrev ◌>>=◌ : {A B : Type 0} → Step A → (A → Step B) → Step B
  (step >>= next) d = after (step d).0 (step d).1 next

  abbrev pub lift : {A : Type 0} → Result A → Step A
  lift r d = (r, d)

  pub current_tips : Repo → Result (List RefTip)
  current_tips repo = bind (for_each_ref repo) (λ lines. ok (sort_by_name (parse_lines lines)))

  pub current_head : Repo → Option Bytes
  unfolding head_or
  current_head repo = head_or (symbolic_ref repo)

  manifest_or_default : Option Bytes → Result SealManifest
  manifest_or_default none = ok default_manifest
  manifest_or_default (some bytes) = json.from_slice bytes

  pub load_manifest : Disk → Result SealManifest
  unfolding manifest_or_default
  load_manifest d = bind (get_manifest d) manifest_or_default

  store_manifest : SealManifest → Step (Unit {0})
  store_manifest m = do bytes ← lift (json.to_vec m); put_manifest bytes

  delete_all : List Segment → Disk → Disk
  delete_all [] d = d
  delete_all (s ∷ ss) d = delete_all ss (delete_segment s.index d).1

  dropping : List Segment → Step (Unit {0})
  unfolding delete_all
  dropping segments d = (ok tt, delete_all segments d)

  pub write_base_segment : Repo → List RefTip → SealManifest → Step SealManifest
  unfolding dropping
  write_base_segment repo tips m = do
    bytes ← lift (bundle_create repo [])
    dropped ← dropping m.segments
    put ← put_segment 0 bytes
    lift (
        ok (record m {
          segments =
              record { index = 0; has_payload = true; size = length bytes; tips = tips } ∷ [];
        }))

  pub existing_oids : Repo → List Bytes → List Bytes
  existing_oids repo [] = []
  existing_oids repo (o ∷ os) =
      let rest = existing_oids repo os in if cat_file repo o then o ∷ rest else rest

  has_new_objects : Repo → List Bytes → Result Bool
  has_new_objects repo nots = bind (rev_list repo nots) (λ out. ok (has_token out))

  pub delta_segment : Repo → ℕ → List Bytes → List RefTip → Bool → Step Segment
  delta_segment repo next old_oids tips true = do
    bytes ← lift (bundle_create repo old_oids)
    put ← put_segment next bytes
    lift (ok (record { index = next; has_payload = true; size = length bytes; tips = tips }))
  delta_segment repo next old_oids tips false =
      lift (ok (record { index = next; has_payload = false; size = 0; tips = tips }))

  pub append_delta_segment : Repo → List RefTip → List RefTip → SealManifest → Step SealManifest
  unfolding next_index existing_oids has_new_objects delta_segment
  append_delta_segment repo old_tips tips m =
      let old_oids = existing_oids repo (tips_oids old_tips) in
      do
        fresh ← lift (has_new_objects repo old_oids)
        segment ← delta_segment repo (next_index (last_of m.segments)) old_oids tips fresh
        lift (ok (record m { segments = m.segments ++ segment ∷ [] }))

  pub finish : Option Bytes → SealManifest → Step (Unit {0})
  unfolding store_manifest
  finish head m = do
    stored ← store_manifest (record m { version = 1; head = head })
    (λ d. (ok tt, (delete_legacy d).1))

  update_manifest : Repo → List RefTip → SealManifest → Bool → Step SealManifest
  unfolding write_base_segment append_delta_segment
  update_manifest repo tips m full =
      if full
      then write_base_segment repo tips m
      else append_delta_segment repo (last_tips m) tips m

  pub no_segments : List Segment → Bool
  no_segments [] = true
  no_segments (s ∷ ss) = false

  update_and_finish : Repo → List RefTip → Option Bytes → SealManifest → Bool → Step (Unit {0})
  unfolding update_manifest finish
  update_and_finish repo tips head m full = update_manifest repo tips m full >>= finish head

  seal_repo : Repo → List RefTip → Option Bytes → SealManifest → Step (Unit {0})
  unfolding update_and_finish no_segments eq_tips eq_head
  seal_repo repo tips head m =
      let full = leb max_segments (length m.segments % 2 ^ 32) in
      if no_segments m.segments
      then update_and_finish repo tips head m true
      else if eq_tips (last_tips m) tips && eq_head m.head head
      then lift (ok tt)
      else update_and_finish repo tips head m full

  pub seal_to_store : Option Repo → Step (Unit {0})
  unfolding seal_repo current_head
  seal_to_store none = lift (err (not_found "repo"))
  seal_to_store (some repo) = do
    made ← init_repo
    tips ← lift (current_tips repo)
    m ← (λ d. (load_manifest d, d))
    seal_repo repo tips (current_head repo) m
