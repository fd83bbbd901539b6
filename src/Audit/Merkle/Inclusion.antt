-- ===== src/Audit/Merkle/Inclusion.antt =====
-- The proofs of `inclusion_proof` in merkle.rs pass `verify_inclusion`, for every tree size.
use Prim.Native.Nat.{bit_xor}
use native.Mathlib.Nat.{two-pow-succ, one-le-pow, pow-le-pow_right}
use native.Mathlib.Decide.{dec_lt}
use secgit.Prelude.{
  ℕ, zero, suc, ◌+◌, ◌-◌, ◌/◌, ◌%◌, ◌^◌, ◌≤◌, ◌<◌, ◌≡◌, refl, ap, ap₂, ◌∙◌, some, List, [], ◌∷◌,
  ◌++◌, Bytes, arith, lt→ltb, le→ltb, ◌==◌, if◌then◌else◌, length, take, drop, get_elem?,
  length-append, length-take, length-drop, get_elem?-take, get_elem?-drop,
}
use secgit.Prelude.Bits.{
  bit_length, bit_length-le, bit_length_top, count_ones, bit_below_top, bit_top, shr_below,
  count_ones_shr_top, bit_xor_top, bit_xor_tops, bit_xor-lt,
}
use secgit.Audit.Merkle.{
  largest_pow2_lt, node_hash, root, push, inclusion_proof, inner_proof_size, fold_inner,
  fold_border,
}
use secgit.Audit.Merkle.Split.{
  largest_pow2_lt_lem, root_one, root_split, inclusion_one, chosen, inclusion_split,
}

-- The split point, when the power is known.
largest_pow2_lt_exact : (j n : ℕ) → 2 ^ j < n → n ≤ 2 ^ suc j → largest_pow2_lt n ≡ 2 ^ j
largest_pow2_lt_exact j n lo hi =
    let (i, e, lo', hi') = largest_pow2_lt_lem n (omega (arith, one-le-pow j 2)) in
    e ∙ ap (λ t. 2 ^ t) (same i lo' hi')
  where
    same : (i : ℕ) → 2 ^ i < n → n ≤ 2 ^ suc i → i ≡ j
    same i p q = elim (dec_lt i j) [
      | yes h ↦ absurd (omega (arith, pow-le-pow_right {n = 2} (omega arith) {i = suc i} {j = j} h))
      | no h ↦ elim (dec_lt j i) [
        | yes k ↦
            absurd (omega (arith, pow-le-pow_right {n = 2} (omega arith) {i = suc j} {j = i} k))
        | no k ↦ omega arith
      ]
    ]

pub get_elem?-lt {ℓ} :
    {A : Type ℓ} (xs : List A) (m : ℕ) {x : A} → get_elem? xs m ≡ some x → m < length xs
get_elem?-lt [] m h = cc
get_elem?-lt (x ∷ xs) zero h = omega arith
get_elem?-lt (x ∷ xs) (suc m) h = omega (arith, get_elem?-lt xs m h)

-- The sizes that the verifier computes, on each side of a split at `2 ^ j`.
pub inner_left : (j m n : ℕ) → m < 2 ^ j → 2 ^ j < n → n ≤ 2 ^ suc j → inner_proof_size m n ≡ suc j
unfolding inner_proof_size
inner_left j m n p lo hi =
    let e : n - 1 ≡ 2 ^ j + (n - 1 - 2 ^ j) = omega arith in
    let (a, b) = bit_xor_top j m (n - 1 - 2 ^ j) p (omega (arith, two-pow-succ j)) in
    rw e (bit_length_top j _ a b)

pub inner_right :
    (j m n : ℕ)
    → 2 ^ j ≤ m
    → m < n
    → n ≤ 2 ^ suc j
    → inner_proof_size m n ≡ inner_proof_size (m - 2 ^ j) (n - 2 ^ j)
unfolding inner_proof_size
inner_right j m n p q hi =
    let a : m ≡ 2 ^ j + (m - 2 ^ j) = omega arith in
    let b : n - 1 ≡ 2 ^ j + (n - 2 ^ j - 1) = omega arith in
    ap bit_length (
      ap₂ bit_xor a b
      ∙ bit_xor_tops j (m - 2 ^ j) (n - 2 ^ j - 1) (omega (arith, two-pow-succ j))
          (omega (arith, two-pow-succ j)))

pub inner-le : (j m n : ℕ) → m < n → n ≤ 2 ^ j → inner_proof_size m n ≤ j
unfolding inner_proof_size
inner-le j m n p q =
    bit_length-le j _ (bit_xor-lt j m (n - 1) (omega arith) (omega (arith, one-le-pow j 2)))

abbrev pub ones_above : ℕ → ℕ → ℕ
ones_above m inner = count_ones (m / 2 ^ inner)

pub ones_above_zero : (j m : ℕ) → m < 2 ^ j → ones_above m (suc j) ≡ 0
unfolding count_ones
ones_above_zero j m p = ap count_ones (shr_below (suc j) m (omega (arith, two-pow-succ j)))

pub ones_above_right :
    (j i m : ℕ) → i ≤ j → 2 ^ j ≤ m → m < 2 ^ suc j → ones_above m i ≡ ones_above (m - 2 ^ j) i + 1
ones_above_right j i m h lo hi =
    let a : m ≡ 2 ^ j + (m - 2 ^ j) = omega arith in
    ap (λ t. ones_above t i) a
    ∙ count_ones_shr_top j i (m - 2 ^ j) h (omega (arith, two-pow-succ j))

module _ (sha256 : Bytes → Bytes) where
  abbrev pub join : ℕ → ℕ → Bytes → Bytes → Bytes
  join m i acc p = if m / 2 ^ i % 2 == 0 then node_hash sha256 acc p else node_hash sha256 p acc

  fold_inner-push :
      (m i : ℕ) (acc : Bytes) (ps : List Bytes) (q : Bytes)
      → fold_inner sha256 m i acc (ps ++ q ∷ [])
        ≡ join m (i + length ps) (fold_inner sha256 m i acc ps) q
  unfolding fold_inner
  fold_inner-push m i acc [] q = let e : i + 0 ≡ i = omega arith in rw e
  fold_inner-push m i acc (p ∷ ps) q =
      let e : i + suc (length ps) ≡ i + 1 + length ps = omega arith in
      rw e (fold_inner-push m (i + 1) (join m i acc p) ps q)

  pub fold_border-push :
      (acc : Bytes) (ps : List Bytes) (q : Bytes)
      → fold_border sha256 acc (ps ++ q ∷ []) ≡ node_hash sha256 q (fold_border sha256 acc ps)
  unfolding fold_border
  fold_border-push acc [] q = refl
  fold_border-push acc (p ∷ ps) q = fold_border-push (node_hash sha256 p acc) ps q

  -- A digit above the inner siblings does not change how they are folded in.
  pub fold_inner_below :
      (j a i : ℕ) (acc : Bytes) (ps : List Bytes)
      → i + length ps ≤ j
      → fold_inner sha256 (2 ^ j + a) i acc ps ≡ fold_inner sha256 a i acc ps
  unfolding fold_inner
  fold_inner_below j a i acc [] h = refl
  fold_inner_below j a i acc (p ∷ ps) h =
      rw (bit_below_top j i a (omega arith))
        (fold_inner_below j a (i + 1) (join a i acc p) ps (omega arith))

  -- The split of a tree of more than `2 ^ j` and at most `2 ^ (j + 1)` leaves.
  module _ (j : ℕ) (xs : List Bytes) (lo : 2 ^ j < length xs) (hi : length xs ≤ 2 ^ suc j) where
    two : 2 ≤ length xs
    two = omega (arith, one-le-pow j 2)

    pub root_at :
        root sha256 xs
        ≡ node_hash sha256 (root sha256 (take (2 ^ j) xs)) (root sha256 (drop (2 ^ j) xs))
    root_at =
        let e = largest_pow2_lt_exact j (length xs) lo hi in rw e at (root_split sha256 xs two)

    proof_at :
        (m : ℕ)
        → m < length xs
        → inclusion_proof sha256 xs m
          ≡ chosen sha256
              (2 ^ j)
              xs
              m
              (inclusion_proof sha256 (take (2 ^ j) xs) m)
              (inclusion_proof sha256 (drop (2 ^ j) xs) (m - 2 ^ j))
    proof_at m h =
        let e = largest_pow2_lt_exact j (length xs) lo hi in
        rw e at (inclusion_split sha256 xs m two h)

    pub proof_left :
        (m : ℕ) (p : List Bytes)
        → m < 2 ^ j
        → inclusion_proof sha256 (take (2 ^ j) xs) m ≡ some p
        → inclusion_proof sha256 xs m ≡ some (p ++ root sha256 (drop (2 ^ j) xs) ∷ [])
    unfolding push
    proof_left m p h e = rw (proof_at m (omega arith), lt→ltb m (2 ^ j) h, e)

    pub proof_right :
        (m : ℕ) (p : List Bytes)
        → 2 ^ j ≤ m
        → m < length xs
        → inclusion_proof sha256 (drop (2 ^ j) xs) (m - 2 ^ j) ≡ some p
        → inclusion_proof sha256 xs m ≡ some (p ++ root sha256 (take (2 ^ j) xs) ∷ [])
    unfolding push
    proof_right m p h lt e = rw (proof_at m lt, le→ltb m (2 ^ j) h, e)

    pub fold_left :
        (m : ℕ) (x : Bytes) (p : List Bytes)
        → m < 2 ^ j
        → length p ≡ j
        → fold_inner sha256 m 0 x p ≡ root sha256 (take (2 ^ j) xs)
        → fold_inner sha256 m 0 x (p ++ root sha256 (drop (2 ^ j) xs) ∷ []) ≡ root sha256 xs
    fold_left m x p h e f =
        let z : 0 + length p ≡ j = omega arith in
        rw (fold_inner-push m 0 x p, z, shr_below j m h, f, root_at)

    fold_right :
        (m : ℕ) (x : Bytes) (p : List Bytes)
        → 2 ^ j ≤ m
        → m < 2 ^ suc j
        → length p ≡ j
        → fold_inner sha256 (m - 2 ^ j) 0 x p ≡ root sha256 (drop (2 ^ j) xs)
        → fold_inner sha256 m 0 x (p ++ root sha256 (take (2 ^ j) xs) ∷ []) ≡ root sha256 xs
    fold_right m x p h lt e f =
        let z : 0 + length p ≡ j = omega arith in
        let top : m ≡ 2 ^ j + (m - 2 ^ j) = omega arith in
        let one : m / 2 ^ j ≡ 1 =
          ap (λ t. t / 2 ^ j) top ∙ bit_top j (m - 2 ^ j) (omega (arith, two-pow-succ j)) in
        let below : fold_inner sha256 m 0 x p ≡ root sha256 (drop (2 ^ j) xs) =
          ap (λ t. fold_inner sha256 t 0 x p) top
          ∙ fold_inner_below j (m - 2 ^ j) 0 x p (omega arith)
          ∙ f in
        rw (fold_inner-push m 0 x p, z, one, below, root_at)

  -- In a full tree, the index's digits say on which side each sibling stands.
  pub full_tree :
      (j : ℕ) (xs : List Bytes) (m : ℕ) (x : Bytes)
      → length xs ≡ 2 ^ j
      → get_elem? xs m ≡ some x
      → (p : List Bytes) × (inclusion_proof sha256 xs m ≡ some p)
        × (length p ≡ j)
        × (fold_inner sha256 m 0 x p ≡ root sha256 xs)
  unfolding fold_inner
  full_tree zero [] m x e h = cc
  full_tree zero (y ∷ []) zero x e h = ([], inclusion_one sha256 y, refl, cc (root_one sha256 y))
  full_tree zero (y ∷ []) (suc m) x e h = cc
  full_tree zero (y ∷ z ∷ xs) m x e h = absurd (omega arith)
  full_tree (suc j) xs m x e h =
      let lo : 2 ^ j < length xs = omega (arith, two-pow-succ j, one-le-pow j 2) in
      let hi : length xs ≤ 2 ^ suc j = omega arith in
      elim (dec_lt m (2 ^ j)) [
        | yes l ↦
            let (p, made, sized, folded) =
              full_tree j (take (2 ^ j) xs) m x
                (omega (arith, length-take (2 ^ j) xs, two-pow-succ j))
                (get_elem?-take (2 ^ j) xs m l ∙ h) in
            let q = root sha256 (drop (2 ^ j) xs) in
            (
              p ++ q ∷ [],
              proof_left j xs lo hi m p l made,
              omega (arith, length-append p (q ∷ [])),
              fold_left j xs lo hi m x p l sized folded,
            )
        | no r ↦
            let (p, made, sized, folded) =
              full_tree j (drop (2 ^ j) xs) (m - 2 ^ j) x
                (omega (arith, length-drop (2 ^ j) xs, two-pow-succ j))
                (get_elem?-drop (2 ^ j) xs (m - 2 ^ j) m (omega arith) ∙ h) in
            let q = root sha256 (take (2 ^ j) xs) in
            let lt = get_elem?-lt xs m h in
            (
              p ++ q ∷ [],
              proof_right j xs lo hi m p (omega arith) lt made,
              omega (arith, length-append p (q ∷ [])),
              fold_right j xs lo hi m x p (omega arith) (omega arith) sized folded,
            )
      ]
