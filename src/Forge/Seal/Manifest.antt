-- ===== src/Forge/Seal/Manifest.antt =====
-- forge/src/lib.rs: the manifest that `seal_to_store` writes.
use secgit.Prelude.{
  ℕ, suc, ◌+◌, ◌%◌, ◌^◌, ◌<◌, ◌≤◌, ◌≡◌, refl, ap, ap₂, sym, ◌∙◌, ◌⊎◌, max, Bool, true, false, ◌&&◌,
  Option, some, List, [], ◌∷◌, ◌++◌, Bytes, bytes_eq, bytes_eq_sound, arith, Bool-cases, inl, inr,
  length, length-append, &&-split, leb,
}
use secgit.Forge.{
  Result, ok, err, ok_same, RefTip, Segment, SealManifest, last_of, tips_or_none, last_tips,
  tips_oids, sort_by_name, Git, SealStore, ManifestJson,
}
use mathlib.Core.List.{Permᴰ, map}
use secgit.Prelude.{none, All}
use secgit.Forge.Tips.{line_of, IsTip, IsSorted, parse_lines-line_of, sort_by_name-IsSorted}
use secgit.Forge.Seal.{
  eq_tips, eq_head, next_index, Step, after, lift, load_manifest, current_tips, current_head,
  store_manifest, dropping, write_base_segment, existing_oids, has_new_objects, delta_segment,
  append_delta_segment, finish, no_segments, update_manifest, update_and_finish, seal_repo,
  seal_to_store,
}

eq_tips_sound : (ts us : List RefTip) → eq_tips ts us ≡ true → ts ≡ us
unfolding eq_tips
eq_tips_sound [] [] h = refl
eq_tips_sound [] (u ∷ us) h = cc
eq_tips_sound (t ∷ ts) [] h = cc
eq_tips_sound (t ∷ ts) (u ∷ us) h =
    let (both, rest) = &&-split (bytes_eq t.name u.name && bytes_eq t.oid u.oid) _ h in
    let (n, o) = &&-split (bytes_eq t.name u.name) _ both in
    ap₂ (λ x xs. x ∷ xs)
      (ap₂ (λ a b. record { name = a; oid = b }) (bytes_eq_sound t.name u.name n)
        (bytes_eq_sound t.oid u.oid o))
      (eq_tips_sound ts us rest)

eq_head_sound : (a b : Option Bytes) → eq_head a b ≡ true → a ≡ b
unfolding eq_head
eq_head_sound none none h = refl
eq_head_sound none (some b) h = cc
eq_head_sound (some a) none h = cc
eq_head_sound (some a) (some b) h = ap some (bytes_eq_sound a b h)

-- The segments' indices count up from a number.
unfoldable pub Numbered : ℕ → List Segment → Type 0
Numbered n [] = Unit
Numbered n (s ∷ ss) = (s.index ≡ n) × Numbered (suc n) ss

last_of-snoc : {A : Type 0} (xs : List A) (x : A) → last_of (xs ++ x ∷ []) ≡ some x
unfolding last_of
last_of-snoc [] x = refl
last_of-snoc (y ∷ []) x = refl
last_of-snoc (y ∷ z ∷ zs) x = last_of-snoc (z ∷ zs) x

next_index-Numbered :
    (n : ℕ) (s : Segment) (ss : List Segment)
    → Numbered n (s ∷ ss)
    → next_index (last_of (s ∷ ss)) ≡ n + length (s ∷ ss)
unfolding Numbered last_of next_index
next_index-Numbered n s [] (e, h) = omega (arith, e)
next_index-Numbered n s (u ∷ us) (e, h) = next_index-Numbered (suc n) u us h ∙ omega arith

next_index-length : (ss : List Segment) → Numbered 0 ss → next_index (last_of ss) ≡ 0 + length ss
unfolding next_index last_of
next_index-length [] h = omega arith
next_index-length (s ∷ ss) h = next_index-Numbered 0 s ss h

Numbered-snoc :
    (n : ℕ) (ss : List Segment) (s : Segment)
    → s.index ≡ n + length ss
    → Numbered n ss
    → Numbered n (ss ++ s ∷ [])
unfolding Numbered
Numbered-snoc n [] s e h = (omega (arith, e), tt)
Numbered-snoc n (u ∷ us) s e (p, h) = (p, Numbered-snoc (suc n) us s (omega (arith, e)) h)

module _ {Repo Disk : Type 0} (git : Git Repo) (store : SealStore Disk) (json : ManifestJson)
    (max_segments : ℕ) where
  open git use {for_each_ref, bundle_create}
  open store use {init_repo, put_segment, put_manifest, delete_legacy}

  step_ok :
      {A B : Type 0} (first : Step git store json max_segments A)
      (next : A → Step git store json max_segments B) (d : Disk) {last : B} {d' : Disk}
      → after git store json max_segments (first d).0 (first d).1 next ≡ (ok last, d')
      → (x : A) × (mid : Disk) × (first d ≡ (ok x, mid)) × (next x mid ≡ (ok last, d'))
  step_ok {A = A} first next d {last = last} {d' = d'} h = go (first d).0 refl h
    where
      go :
          (r : Result A)
          → (first d).0 ≡ r
          → after git store json max_segments r (first d).1 next ≡ (ok last, d')
          → (x : A) × (mid : Disk) × (first d ≡ (ok x, mid)) × (next x mid ≡ (ok last, d'))
      go (ok a) e h = (a, (first d).1, ap (λ r. (r, (first d).1)) e, h)
      go (err e') e h = cc

  -- The segments are numbered from zero, and there are at most as many as the limit, or one.
  pub record IsNumbered (m : SealManifest) : Type 0 where
    pub numbered : Numbered 0 m.segments
    pub bounded : length m.segments ≤ max max_segments 1

  delta_segment-made :
      (repo : Repo) (next : ℕ) (olds : List Bytes) (tips : List RefTip) (fresh : Bool) (s : Segment)
      (d d' : Disk)
      → delta_segment git store json max_segments repo next olds tips fresh d ≡ (ok s, d')
      → (s.index ≡ next) × (s.tips ≡ tips)
  unfolding delta_segment
  delta_segment-made repo next olds tips true s d d' h =
      let (bytes, d1, bundled, h1) =
        step_ok (lift git store json max_segments (bundle_create repo olds)) _ d h in
      let (u, d2, put, h2) = step_ok (put_segment next bytes) _ d1 h1 in
      let same = ok_same (ap (λ r. r.0) h2) in
      (ap (λ x. x.index) (sym same), ap (λ x. x.tips) (sym same))
  delta_segment-made repo next olds tips false s d d' h =
      let same = ok_same (ap (λ r. r.0) h) in
      (ap (λ x. x.index) (sym same), ap (λ x. x.tips) (sym same))

  append-IsNumbered :
      (repo : Repo) (tips : List RefTip) (m m' : SealManifest) (d d' : Disk)
      → length m.segments < max_segments
      → IsNumbered m
      → append_delta_segment git store json max_segments repo (last_tips m) tips m d ≡ (ok m', d')
      → IsNumbered m' × (last_tips m' ≡ tips)
  unfolding append_delta_segment last_tips tips_or_none
  append-IsNumbered repo tips m m' d d' room n h =
      let olds = existing_oids git store json max_segments repo (tips_oids (last_tips m)) in
      let next = next_index (last_of m.segments) in
      let (fresh, d1, asked, h1) =
        step_ok
          (lift git store json max_segments (has_new_objects git store json max_segments repo olds))
          _ d h in
      let (s, d2, made, h2) =
        step_ok (delta_segment git store json max_segments repo next olds tips fresh) _ d1 h1 in
      let (index, tips_are) = delta_segment-made repo next olds tips fresh s d1 d2 made in
      let same : record m { segments = m.segments ++ s ∷ [] } ≡ m' = ok_same (ap (λ r. r.0) h2) in
      rw (← same) (
        record {
          numbered =
              Numbered-snoc 0 m.segments s (index ∙ next_index-length m.segments n.numbered)
                n.numbered;
          bounded = omega (arith, room, length-append m.segments (s ∷ []));
        },
        ap tips_or_none (last_of-snoc m.segments s) ∙ tips_are,
      )

  base-IsNumbered :
      (repo : Repo) (tips : List RefTip) (m m' : SealManifest) (d d' : Disk)
      → write_base_segment git store json max_segments repo tips m d ≡ (ok m', d')
      → IsNumbered m' × (last_tips m' ≡ tips)
  unfolding write_base_segment dropping last_tips tips_or_none last_of Numbered
  base-IsNumbered repo tips m m' d d' h =
      let (bytes, d1, bundled, h1) =
        step_ok (lift git store json max_segments (bundle_create repo [])) _ d h in
      let (v, d2, put, h2) = step_ok (put_segment 0 bytes) _ _ h1 in
      let same = ok_same (ap (λ r. r.0) h2) in
      rw (← same) (record { numbered = (refl, tt); bounded = omega arith }, refl)

  -- The manifest that a seal wrote, and the writes that it ended with.
  pub record Wrote (tips : List RefTip) (head : Option Bytes) (d' : Disk) : Type 0 where
    pub m : SealManifest
    pub numbered : IsNumbered m
    pub tips_are : last_tips m ≡ tips
    pub head_is : m.head ≡ head
    pub version : m.version ≡ 1
    pub bytes : Bytes
    pub text : json.to_vec m ≡ ok bytes
    pub before : Disk
    pub behind : Disk
    pub put : put_manifest bytes before ≡ (ok tt, behind)
    pub cleaned : (delete_legacy behind).1 ≡ d'

  finish-Wrote :
      (tips : List RefTip) (head : Option Bytes) (m : SealManifest) (d d' : Disk)
      → IsNumbered m
      → last_tips m ≡ tips
      → finish git store json max_segments head m d ≡ (ok tt, d')
      → Wrote tips head d'
  unfolding finish store_manifest last_tips
  finish-Wrote tips head m d d' n t h =
      let m' = record m { version = 1; head = head } in
      let (u, d1, stored, h1) = step_ok (store_manifest git store json max_segments m') _ d h in
      let (bytes, d2, text, put) =
        step_ok (lift git store json max_segments (json.to_vec m')) put_manifest d stored in
      record {
        m = m';
        numbered = record { numbered = n.numbered; bounded = n.bounded };
        tips_are = t;
        head_is = refl;
        version = refl;
        bytes = bytes;
        text = ap (λ r. r.0) text;
        before = d2;
        behind = d1;
        put = put;
        cleaned = ap (λ r. r.1) h1;
      }

  update_and_finish-Wrote :
      (repo : Repo) (tips : List RefTip) (head : Option Bytes) (m : SealManifest) (full : Bool)
      (d d' : Disk)
      → (full ≡ false → length m.segments < max_segments)
      → IsNumbered m
      → update_and_finish git store json max_segments repo tips head m full d ≡ (ok tt, d')
      → Wrote tips head d'
  unfolding update_and_finish update_manifest
  update_and_finish-Wrote repo tips head m full d d' room n h =
      let (m', d1, updated, h1) =
        step_ok (update_manifest git store json max_segments repo tips m full)
          (finish git store json max_segments head) d h in
      let (n', t) = updated_lem full room updated in finish-Wrote tips head m' d1 d' n' t h1
    where
      updated_lem :
          {m' : SealManifest} {d1 : Disk} (b : Bool)
          → (b ≡ false → length m.segments < max_segments)
          → update_manifest git store json max_segments repo tips m b d ≡ (ok m', d1)
          → IsNumbered m' × (last_tips m' ≡ tips)
      updated_lem true small e = base-IsNumbered repo tips m _ d _ e
      updated_lem false small e = append-IsNumbered repo tips m _ d _ (small refl) n e

  seal_repo-Wrote :
      (repo : Repo) (tips : List RefTip) (head : Option Bytes) (m : SealManifest) (d d' : Disk)
      → max_segments < 2 ^ 32
      → IsNumbered m
      → seal_repo git store json max_segments repo tips head m d ≡ (ok tt, d')
      → ((last_tips m ≡ tips) × (m.head ≡ head) × (d' ≡ d)) ⊎ Wrote tips head d'
  unfolding seal_repo
  seal_repo-Wrote repo tips head m d d' small n h =
      elim (Bool-cases (no_segments git store json max_segments m.segments)) [
        | inl bare ↦ inr (
            update_and_finish-Wrote repo tips head m true d d' (λ e. absurd (cc e)) n
              (rw bare at h))
        | inr some_there ↦ elim (Bool-cases (eq_tips (last_tips m) tips && eq_head m.head head)) [
          | inl same ↦ inl (
            eq_tips_sound (last_tips m) tips (&&-split (eq_tips (last_tips m) tips) _ same).0,
            eq_head_sound m.head head (&&-split (eq_tips (last_tips m) tips) _ same).1,
            ap (λ r. r.1) (sym (rw (some_there, same) at h)),
          )
          | inr changed ↦ inr (
              update_and_finish-Wrote repo tips head m
                (leb max_segments (length m.segments % 2 ^ 32)) d d'
                (λ e. let b = n.bounded in ground (arith, e, b, small)) n
                (rw (some_there, changed) at h))
        ]
      ]

  -- Where git lists some refs by their lines, and the manifest that is loaded has its segments
  -- numbered from zero and no more of them than the limit (or one), a limit of 32 bits, a seal that
  -- succeeds takes these refs, all of them and in the order of their names, as the tips. Then it
  -- either finds the same tips and head in the manifest and writes nothing after preparing the
  -- repository, or it ends by writing a manifest of which the same holds, whose last segment has the
  -- tips, with the head and version 1, and by deleting the legacy bundle.
  pub seal_to_store-Wrote :
      (repo : Repo) (refs : List RefTip) (m : SealManifest) (d d' : Disk)
      → max_segments < 2 ^ 32
      → for_each_ref repo ≡ ok (map line_of refs)
      → All IsTip refs
      → load_manifest git store json max_segments (init_repo d).1 ≡ ok m
      → IsNumbered m
      → seal_to_store git store json max_segments (some repo) d ≡ (ok tt, d')
      → let head = current_head git store json max_segments repo in
        (tips : List RefTip) × IsSorted tips
        × Permᴰ tips refs
        × (((last_tips m ≡ tips) × (m.head ≡ head) × (d' ≡ (init_repo d).1)) ⊎ Wrote tips head d')
  unfolding seal_to_store current_tips
  seal_to_store-Wrote repo refs m d d' small listed are_tips held n h =
      let (u, d1, prepared, h1) = step_ok init_repo _ d h in
      let disk : (init_repo d).1 ≡ d1 = ap (λ r. r.1) prepared in
      let held1 = rw disk at held in
      let head = current_head git store json max_segments repo in
      let (sorted, kept) = sort_by_name-IsSorted refs in
      (
        sort_by_name refs,
        sorted,
        kept,
        elim (seal_repo-Wrote repo (sort_by_name refs) head m d1 d' small n
            (rw (listed, parse_lines-line_of refs are_tips, held1) at h1)) [
              | inl (same, head_same, stays) ↦ inl (same, head_same, stays ∙ sym disk)
              | inr wrote ↦ inr wrote
            ],
      )
