-- ===== src/Forge.antt =====
-- crates/secgit-forge/src/lib.rs: the manifest of a sealed repository, and what sealing calls: git
-- and the encrypted store, as interfaces.
-- One repository is meant throughout, so the operations have no identifier for it.
pub mod Tips
pub mod Seal
pub mod Restore
use secgit.Prelude.{
  ℕ, zero, suc, ◌+◌, ◌≡◌, ◌≢◌, refl, String, Bool, true, false, not, ◌&&◌, ◌||◌, Option, none, some,
  List, [], ◌∷◌, ◌++◌, Bytes, length, bytes_eq, ◌==◌, ltb, any, All, if◌then◌else◌,
}

pub data ForgeError : Type 0 where
  io git gix store not_found manifest : String → ForgeError

pub data Result {ℓ} (A : Type ℓ) : Type ℓ where
  ok : A → Result A
  err : ForgeError → Result A

infixl 5 ◌>>=◌
abbrev pub ◌>>=◌ {ℓ κ} : {A : Type ℓ} {B : Type κ} → Result A → (A → Result B) → Result B
ok value >>= next = next value
err e >>= next = err e

pub record RefTip : Type 0 where
  pub name : Bytes
  pub oid : Bytes

pub record Segment : Type 0 where
  pub index : ℕ
  pub has_payload : Bool
  pub size : ℕ
  pub tips : List RefTip

pub record SealManifest : Type 0 where
  pub version : ℕ
  pub head : Option Bytes
  pub segments : List Segment

abbrev pub default_manifest : SealManifest
default_manifest = record { version = 0; head = none; segments = [] }

pub last_of : {A : Type 0} → List A → Option A
last_of [] = none
last_of (x ∷ []) = some x
last_of (x ∷ y ∷ ys) = last_of (y ∷ ys)

tips_or_none : Option Segment → List RefTip
tips_or_none none = []
tips_or_none (some s) = s.tips

pub last_tips : SealManifest → List RefTip
unfolding last_of tips_or_none
last_tips m = tips_or_none (last_of m.segments)

sum_sizes : List Segment → ℕ
sum_sizes [] = 0
sum_sizes (s ∷ ss) = s.size + sum_sizes ss

pub total_size : SealManifest → ℕ
unfolding sum_sizes
total_size m = sum_sizes m.segments

pub tips_oids : List RefTip → List Bytes
tips_oids [] = []
tips_oids (t ∷ ts) = t.oid ∷ tips_oids ts

-- `split_once(' ')`: what stands before and behind the first blank.
cons_left : ℕ → Option (Bytes × Bytes) → Option (Bytes × Bytes)
cons_left b none = none
cons_left b (some (l, r)) = some (b ∷ l, r)

split_once : Bytes → Option (Bytes × Bytes)
unfolding cons_left
split_once [] = none
split_once (b ∷ bs) =
    let rest = cons_left b (split_once bs) in if b == 32 then some ([], bs) else rest

pub is_empty : Bytes → Bool
is_empty [] = true
is_empty (b ∷ bs) = false

push_tip : Option (Bytes × Bytes) → List RefTip → List RefTip
unfolding is_empty
push_tip none rest = rest
push_tip (some (oid, name)) rest =
    if not (is_empty oid) && not (is_empty name)
    then record { name = name; oid = oid } ∷ rest
    else rest

-- The tips that the lines of `for-each-ref` name.
pub parse_lines : List Bytes → List RefTip
unfolding split_once push_tip
parse_lines [] = []
parse_lines (line ∷ lines) = push_tip (split_once line) (parse_lines lines)

-- The order of byte strings: `a.name.cmp(&b.name)`, whether the first is not above the second.
not_above : Bytes → Bytes → Bool
not_above [] bs = true
not_above (a ∷ xs) [] = false
not_above (a ∷ xs) (b ∷ ys) =
    let rest = not_above xs ys in if ltb a b then true else if ltb b a then false else rest

insert_tip : RefTip → List RefTip → List RefTip
unfolding not_above
insert_tip t [] = t ∷ []
insert_tip t (u ∷ us) =
    let rest = u ∷ insert_tip t us in if not_above t.name u.name then t ∷ (u ∷ us) else rest

pub sort_by_name : List RefTip → List RefTip
unfolding insert_tip
sort_by_name [] = []
sort_by_name (t ∷ ts) = insert_tip t (sort_by_name ts)

is_space : ℕ → Bool
is_space b = b == 32 || b == 10 || b == 9 || b == 13

-- `split_whitespace().next().is_some()`
pub has_token : Bytes → Bool
unfolding is_space
has_token out = any (λ b. not (is_space b)) out

-- What the code calls in git.
pub record Git (Repo : Type 0) : Type 0 where
  pub for_each_ref : Repo → Result (List Bytes)
  pub symbolic_ref : Repo → Result Bytes
  pub cat_file : Repo → Bytes → Bool
  pub rev_list : Repo → List Bytes → Result Bytes
  pub bundle_create : Repo → List Bytes → Result Bytes
  pub init_bare : Result Repo
  pub clone_bare : Bytes → Result Repo
  pub unbundle : Bytes → Repo → Result Repo
  pub update_ref : Bytes → Bytes → Repo → Result Repo
  pub set_head : Bytes → Repo → Result Repo

-- What the code calls in the store. An operation takes the disk and returns its result with the disk
-- that it leaves.
pub record SealStore (Disk : Type 0) : Type 0 where
  pub init_repo : Disk → Result (Unit {0}) × Disk
  pub get_manifest : Disk → Result (Option Bytes)
  pub put_manifest : Bytes → Disk → Result (Unit {0}) × Disk
  pub get_segment : ℕ → Disk → Result (Option Bytes)
  pub put_segment : ℕ → Bytes → Disk → Result (Unit {0}) × Disk
  pub delete_segment : ℕ → Disk → Result (Unit {0}) × Disk
  pub get_legacy : Disk → Result (Option Bytes)
  pub delete_legacy : Disk → Result (Unit {0}) × Disk

-- The JSON text of a manifest.
pub record ManifestJson : Type 0 where
  pub to_vec : SealManifest → Result Bytes
  pub from_slice : Bytes → Result SealManifest

-- A chain that succeeded had a first step that succeeded.
pub chain_ok {ℓ κ} :
    {A : Type ℓ} {B : Type κ} (first : Result A) (next : A → Result B) {last : B}
    → (first >>= next) ≡ ok last
    → (x : A) × (first ≡ ok x) × (next x ≡ ok last)
chain_ok (ok x) next h = (x, refl, h)
chain_ok (err e) next h = cc

pub ok_same {ℓ} : {A : Type ℓ} {x y : A} → ok x ≡ ok y → x ≡ y
ok_same h = cc
