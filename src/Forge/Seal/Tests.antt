-- ===== src/Forge/Seal/Tests.antt =====
-- Two seals of a small repository, and the theorems at concrete inputs.
use mathlib.Core.List.{Permᴰ}
use secgit.Prelude.{
  ℕ, ◌≡◌, ◌≢◌, refl, ◌⊎◌, true, Option, none, some, List, [], ◌∷◌, Bytes, map, arith, bytes_eq, All,
}
use secgit.Forge.{
  ok, RefTip, Segment, SealManifest, parse_lines, sort_by_name, last_tips, has_token, Git,
  SealStore, ManifestJson,
}
use secgit.Forge.Tips.{line_of, IsTip, IsSorted, parse_lines-line_of, sort_by_name-IsSorted}
use secgit.Forge.Seal.{seal_to_store, current_tips, load_manifest, current_head}
use secgit.Forge.Seal.Manifest.{Numbered, IsNumbered, Wrote, seal_to_store-Wrote}

abbrev tip : ℕ → ℕ → RefTip
tip name oid = record { name = name ∷ []; oid = oid ∷ [] }

abbrev two_tips : List RefTip
two_tips = tip 98 65 ∷ tip 97 66 ∷ []

are_tips : All IsTip two_tips
are_tips = (
  (plain 65 (omega arith), some_there 65, some_there 98),
  ((plain 66 (omega arith), some_there 66, some_there 97), tt),
)
  where
    plain : (b : ℕ) → b ≢ 32 → All (λ x. x ≢ 32) (b ∷ [])
    plain b h = (h, tt)

    some_there : (b : ℕ) → ◌≢◌ {A = Bytes} (b ∷ []) []
    some_there b h = cc

parse_lines-line_of-sample : parse_lines (map line_of two_tips) ≡ two_tips
parse_lines-line_of-sample = parse_lines-line_of two_tips are_tips

sort_by_name-IsSorted-sample :
    IsSorted (sort_by_name two_tips) × Permᴰ (sort_by_name two_tips) two_tips
sort_by_name-IsSorted-sample = sort_by_name-IsSorted two_tips

-- Every repository lists two refs and has a branch as its head.
abbrev git : Git ℕ
git = record {
  for_each_ref = λ repo. ok (map line_of two_tips);
  symbolic_ref = λ repo. ok (109 ∷ []);
  cat_file = λ repo oid. true;
  rev_list = λ repo nots. ok (65 ∷ []);
  bundle_create = λ repo nots. ok (7 ∷ 8 ∷ []);
  init_bare = ok 0;
  clone_bare = λ bytes. ok 0;
  unbundle = λ bytes repo. ok repo;
  update_ref = λ name oid repo. ok repo;
  set_head = λ head repo. ok repo;
}

-- A disk of a manifest alone.
abbrev disk : SealStore (Option Bytes)
disk = record {
  init_repo = λ d. (ok tt, d);
  get_manifest = λ d. ok d;
  put_manifest = λ bytes d. (ok tt, some bytes);
  get_segment = λ i d. ok none;
  put_segment = λ i bytes d. (ok tt, d);
  delete_segment = λ i d. (ok tt, d);
  get_legacy = λ d. ok none;
  delete_legacy = λ d. (ok tt, d);
}

abbrev old_segment : Segment
old_segment = record { index = 0; has_payload = true; size = 2; tips = tip 97 60 ∷ [] }

abbrev old_manifest : SealManifest
old_manifest = record { version = 1; head = none; segments = old_segment ∷ [] }

abbrev json : ManifestJson
json = record { to_vec = λ m. ok (9 ∷ []); from_slice = λ bytes. ok old_manifest }

abbrev new_disk : Option Bytes
new_disk = some (9 ∷ [])

abbrev no_head : Option Bytes
no_head = none

sealed : seal_to_store git disk json 4 (some 0) (some (5 ∷ [])) ≡ (ok tt, new_disk)
unfolding seal_to_store current_tips load_manifest last_tips sort_by_name parse_lines bytes_eq
    has_token
sealed = refl

loaded : load_manifest git disk json 4 (some (5 ∷ [])) ≡ ok old_manifest
unfolding load_manifest
loaded = refl

old_manifest-IsNumbered : IsNumbered git disk json 4 old_manifest
unfolding Numbered
old_manifest-IsNumbered = record { numbered = (refl, tt); bounded = omega arith }

seal_to_store-Wrote_example :
    (tips : List RefTip) × IsSorted tips
    × Permᴰ tips two_tips
    × (((last_tips old_manifest ≡ tips)
          × (no_head ≡ current_head git disk json 4 0)
          × (new_disk ≡ some (5 ∷ [])))
        ⊎ Wrote git disk json 4 tips (current_head git disk json 4 0) new_disk)
seal_to_store-Wrote_example =
    seal_to_store-Wrote git disk json 4 0 two_tips old_manifest (some (5 ∷ [])) new_disk
      (omega arith) refl are_tips loaded old_manifest-IsNumbered sealed
