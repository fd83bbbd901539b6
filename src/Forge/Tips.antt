-- ===== src/Forge/Tips.antt =====
-- forge/src/lib.rs: the tips that `for-each-ref` lists, read from their lines and sorted.
use secgit.Prelude.{
  ℕ, ◌<◌, ◌≡◌, ◌≢◌, refl, true, false, some, List, [], ◌∷◌, ◌++◌, Bytes, All, ltb, ◌==◌, ==_iff,
  arith, Bool-cases, inl, inr, map,
}
use mathlib.Core.List.{Permᴰ}
use mathlib.Core.List.Permᴰ as PermD
use secgit.Forge.{
  RefTip, cons_left, split_once, is_empty, push_tip, parse_lines, not_above, insert_tip,
  sort_by_name,
}

-- A line of the listing, `%(objectname) %(refname)`.
abbrev pub line_of : RefTip → Bytes
line_of tip = tip.oid ++ 32 ∷ tip.name

-- An object's name has no blank, and neither name is empty.
abbrev pub IsTip : RefTip → Type 0
IsTip tip = All (λ b. b ≢ 32) tip.oid × (tip.oid ≢ []) × (tip.name ≢ [])

split_once-line :
    (oid name : Bytes) → All (λ b. b ≢ 32) oid → split_once (oid ++ 32 ∷ name) ≡ some (oid, name)
unfolding split_once cons_left
split_once-line [] name h = refl
split_once-line (b ∷ oid) name (p, ps) = elim (Bool-cases (b == 32)) [
  | inl blank ↦ absurd (p ((==_iff b 32).0 blank))
  | inr other ↦ rw (other, split_once-line oid name ps) refl
]

is_empty-ne : (b : Bytes) → b ≢ [] → is_empty b ≡ false
unfolding is_empty
is_empty-ne [] h = absurd (h refl)
is_empty-ne (x ∷ b) h = refl

-- The lines of some tips, each a name without blanks, a blank and a name, are read back as the tips,
-- none lost and in their order.
pub parse_lines-line_of :
    (tips : List RefTip) → All IsTip tips → parse_lines (map line_of tips) ≡ tips
unfolding parse_lines push_tip
parse_lines-line_of [] h = refl
parse_lines-line_of (tip ∷ tips) ((plain, oid, name), hs) =
    rw
      (
        split_once-line tip.oid tip.name plain,
        is_empty-ne tip.oid oid,
        is_empty-ne tip.name name,
        parse_lines-line_of tips hs,
      )
      refl

-- The order of byte strings, as of a dictionary.
pub data Le : Bytes → Bytes → Type 0 where
  nothing : {b : Bytes} → Le [] b
  less : {x y : ℕ} {a b : Bytes} → x < y → Le (x ∷ a) (y ∷ b)
  same : {x y : ℕ} {a b : Bytes} → x ≡ y → Le a b → Le (x ∷ a) (y ∷ b)

not_above-Le : (a b : Bytes) → not_above a b ≡ true → Le a b
unfolding not_above
not_above-Le [] b h = nothing
not_above-Le (x ∷ a) [] h = cc
not_above-Le (x ∷ a) (y ∷ b) h = elim (Bool-cases (ltb x y)) [
  | inl below ↦ less (ground (arith, below))
  | inr level ↦ same (ground (arith, level, h)) (not_above-Le a b (ground (arith, level, h)))
]

not_above_total : (a b : Bytes) → not_above a b ≡ false → Le b a
unfolding not_above
not_above_total [] b h = cc
not_above_total (x ∷ a) [] h = nothing
not_above_total (x ∷ a) (y ∷ b) h = elim (Bool-cases (ltb y x)) [
  | inl below ↦ less (ground (arith, below))
  | inr level ↦ same (ground (arith, level, h)) (not_above_total a b (ground (arith, level, h)))
]

-- A name does not come behind the first of some tips, in the order of the names.
abbrev pub LeHead : Bytes → List RefTip → Type 0
LeHead name [] = Unit
LeHead name (t ∷ ts) = Le name t.name

-- Each tip's name does not come behind the next one's.
abbrev pub IsSorted : List RefTip → Type 0
IsSorted [] = Unit
IsSorted (t ∷ ts) = LeHead t.name ts × IsSorted ts

LeHead-insert_tip :
    (name : Bytes) (t : RefTip) (ts : List RefTip)
    → Le name t.name
    → LeHead name ts
    → LeHead name (insert_tip t ts)
unfolding insert_tip
LeHead-insert_tip name t [] first h = first
LeHead-insert_tip name t (u ∷ us) first h = elim (Bool-cases (not_above t.name u.name)) [
  | inl before ↦ rw before first
  | inr behind ↦ rw behind h
]

insert_tip-IsSorted : (t : RefTip) (ts : List RefTip) → IsSorted ts → IsSorted (insert_tip t ts)
unfolding insert_tip
insert_tip-IsSorted t [] h = (tt, tt)
insert_tip-IsSorted t (u ∷ us) (p, h) = elim (Bool-cases (not_above t.name u.name)) [
  | inl before ↦ rw before (not_above-Le t.name u.name before, (p, h))
  | inr behind ↦ rw behind (
    LeHead-insert_tip u.name t us (not_above_total t.name u.name behind) p,
    insert_tip-IsSorted t us h,
  )
]

insert_tip-Perm : (t : RefTip) (ts : List RefTip) → Permᴰ (insert_tip t ts) (t ∷ ts)
unfolding insert_tip
insert_tip-Perm t [] = PermD.refl (t ∷ [])
insert_tip-Perm t (u ∷ us) = elim (Bool-cases (not_above t.name u.name)) [
  | inl before ↦ rw before (PermD.refl (t ∷ u ∷ us))
  | inr behind ↦
      rw behind (PermD.trans (PermD.cons refl (insert_tip-Perm t us)) (PermD.swap refl refl))
]

-- Sorting puts the tips in the order of their names, and keeps them all, each as often as it was.
pub sort_by_name-IsSorted :
    (ts : List RefTip) → IsSorted (sort_by_name ts) × Permᴰ (sort_by_name ts) ts
unfolding sort_by_name
sort_by_name-IsSorted [] = (tt, PermD.nil)
sort_by_name-IsSorted (t ∷ ts) =
    let (sorted, kept) = sort_by_name-IsSorted ts in
    (
      insert_tip-IsSorted t (sort_by_name ts) sorted,
      PermD.trans (insert_tip-Perm t (sort_by_name ts)) (PermD.cons refl kept),
    )
