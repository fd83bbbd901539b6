-- ===== src/Audit/Merkle/Split.antt =====
-- How `root` and `inclusion_proof` of merkle.rs split a tree, with the fuel gone.
use native.Mathlib.Nat.{two-pow-succ, one-le-pow}
use secgit.Prelude.{
  ℕ, zero, suc, ◌+◌, ◌-◌, ◌*◌, ◌^◌, ◌≤◌, ◌<◌, ◌≡◌, refl, ap₂, sym, ◌∙◌, inl, inr, false, Option,
  some, List, [], ◌∷◌, Bytes, arith, ltb, lt→ltb, Bool-cases, ltb→lt, length, take, drop,
  length-take, length-drop, ◌==◌, if◌then◌else◌,
}
use secgit.Audit.Merkle.{
  pow2_loop, largest_pow2_lt, node_hash, root_from, root, push, inclusion_from, inclusion_proof,
}

pow2_loop_lem :
    (f i n : ℕ)
    → 2 ^ i < n
    → n ≤ 2 ^ i + f
    → (j : ℕ) × (pow2_loop f (2 ^ i) n ≡ 2 ^ j) × (2 ^ j < n) × (n ≤ 2 ^ suc j)
unfolding pow2_loop
pow2_loop_lem zero i n lo hi = absurd (omega arith)
pow2_loop_lem (suc f) i n lo hi =
    let twice : 2 ^ i * 2 ≡ 2 ^ suc i = omega (arith, two-pow-succ i) in
    elim (Bool-cases (ltb (2 ^ i * 2) n)) [
      | inl more ↦
          rw (more, twice)
            (pow2_loop_lem f (suc i) n (omega (arith, ltb→lt (2 ^ i * 2) n more, twice))
              (omega (arith, two-pow-succ i, one-le-pow i 2)))
      | inr done ↦ (i, rw done, lo, ground (arith, twice))
    ]

-- The split point is the largest power of two below the number of leaves.
pub largest_pow2_lt_lem :
    (n : ℕ) → 2 ≤ n → (j : ℕ) × (largest_pow2_lt n ≡ 2 ^ j) × (2 ^ j < n) × (n ≤ 2 ^ suc j)
unfolding largest_pow2_lt
largest_pow2_lt_lem n h = pow2_loop_lem n 0 n (omega arith) (omega arith)

pub split_bounds : (n : ℕ) → 2 ≤ n → (0 < largest_pow2_lt n) × (largest_pow2_lt n < n)
split_bounds n h =
    let (j, e, lo, hi) = largest_pow2_lt_lem n h in
    (omega (arith, e, one-le-pow j 2), omega (arith, e))

-- The left half has the split point's number of leaves.
pub length-left {ℓ} :
    {A : Type ℓ} (xs : List A)
    → 2 ≤ length xs
    → length (take (largest_pow2_lt (length xs)) xs) ≡ largest_pow2_lt (length xs)
length-left xs h =
    omega (arith, length-take (largest_pow2_lt (length xs)) xs, split_bounds (length xs) h)

module _ (sha256 : Bytes → Bytes) where
  root_fuel :
      (f g : ℕ) (xs : List Bytes)
      → length xs ≤ f
      → length xs ≤ g
      → root_from sha256 f xs ≡ root_from sha256 g xs
  unfolding root_from
  root_fuel zero zero [] p q = refl
  root_fuel zero (suc g) [] p q = refl
  root_fuel (suc f) zero [] p q = refl
  root_fuel (suc f) (suc g) [] p q = refl
  root_fuel zero g (x ∷ xs) p q = absurd (omega arith)
  root_fuel (suc f) zero (x ∷ xs) p q = absurd (omega arith)
  root_fuel (suc f) (suc g) (x ∷ []) p q = refl
  root_fuel (suc f) (suc g) (x ∷ y ∷ xs) p q =
      let ls : List Bytes = x ∷ y ∷ xs in
      let k = largest_pow2_lt (length ls) in
      let b = split_bounds (length ls) (omega arith) in
      let l = length-take k ls in
      let d = length-drop k ls in
      ap₂ (node_hash sha256) (root_fuel f g (take k ls) (omega (arith, b, l)) (omega (arith, b, l)))
        (root_fuel f g (drop k ls) (omega (arith, b, d)) (omega (arith, b, d)))

  root_enough : (f : ℕ) (xs : List Bytes) → length xs ≤ f → root_from sha256 f xs ≡ root sha256 xs
  unfolding root
  root_enough f xs h = root_fuel f (length xs) xs h (omega arith)

  pub root_one : (x : Bytes) → root sha256 (x ∷ []) ≡ x
  unfolding root
  root_one x = refl

  pub root_split :
      (xs : List Bytes)
      → 2 ≤ length xs
      → root sha256 xs
        ≡ node_hash sha256
            (root sha256 (take (largest_pow2_lt (length xs)) xs))
            (root sha256 (drop (largest_pow2_lt (length xs)) xs))
  unfolding root_from
  root_split [] h = absurd (omega arith)
  root_split (x ∷ []) h = absurd (omega arith)
  root_split (x ∷ y ∷ xs) h =
      let ls : List Bytes = x ∷ y ∷ xs in
      let f = suc (length xs) in
      let k = largest_pow2_lt (length ls) in
      let b = split_bounds (length ls) h in
      sym (root_enough (suc f) ls (omega arith))
      ∙ ap₂ (node_hash sha256) (root_enough f (take k ls) (omega (arith, b, length-take k ls)))
          (root_enough f (drop k ls) (omega (arith, b, length-drop k ls)))

  inclusion_fuel :
      (f g : ℕ) (xs : List Bytes) (m : ℕ)
      → length xs ≤ f
      → length xs ≤ g
      → inclusion_from sha256 f xs m ≡ inclusion_from sha256 g xs m
  unfolding inclusion_from
  inclusion_fuel zero zero [] m p q = refl
  inclusion_fuel zero (suc g) [] m p q = ground arith
  inclusion_fuel (suc f) zero [] m p q = ground arith
  inclusion_fuel (suc f) (suc g) [] m p q = ground arith
  inclusion_fuel zero g (x ∷ xs) m p q = absurd (omega arith)
  inclusion_fuel (suc f) zero (x ∷ xs) m p q = absurd (omega arith)
  inclusion_fuel (suc f) (suc g) (x ∷ []) m p q = ground arith
  inclusion_fuel (suc f) (suc g) (x ∷ y ∷ xs) m p q =
      let ls : List Bytes = x ∷ y ∷ xs in
      let k = largest_pow2_lt (length ls) in
      let b = split_bounds (length ls) (omega arith) in
      let l = length-take k ls in
      let d = length-drop k ls in
      rw (
        inclusion_fuel f g (take k ls) m (omega (arith, b, l)) (omega (arith, b, l)),
        inclusion_fuel f g (drop k ls) (m - k) (omega (arith, b, d)) (omega (arith, b, d)),
      )

  inclusion_enough :
      (f : ℕ) (xs : List Bytes) (m : ℕ)
      → length xs ≤ f
      → inclusion_from sha256 f xs m ≡ inclusion_proof sha256 xs m
  unfolding inclusion_proof
  inclusion_enough f xs m h = inclusion_fuel f (length xs) xs m h (omega arith)

  pub inclusion_one : (x : Bytes) → inclusion_proof sha256 (x ∷ []) 0 ≡ some []
  unfolding inclusion_proof
  inclusion_one x = refl

  abbrev pub chosen :
      ℕ → List Bytes → ℕ → Option (List Bytes) → Option (List Bytes) → Option (List Bytes)
  chosen k xs m left right =
      if ltb m k
      then push sha256 (root sha256 (drop k xs)) left
      else push sha256 (root sha256 (take k xs)) right

  inclusion_step :
      (f : ℕ) (xs : List Bytes) (m : ℕ)
      → 2 ≤ length xs
      → m < length xs
      → inclusion_from sha256 (suc f) xs m
        ≡ chosen
            (largest_pow2_lt (length xs))
            xs
            m
            (inclusion_from sha256 f (take (largest_pow2_lt (length xs)) xs) m)
            (inclusion_from sha256 f
              (drop (largest_pow2_lt (length xs)) xs)
              (m - largest_pow2_lt (length xs)))
  unfolding inclusion_from
  inclusion_step f xs m h lt = rw (lt→ltb m (length xs) lt, many (length xs) h)
    where
      many : (n : ℕ) → 2 ≤ n → (n == 1) ≡ false
      many n p = ground arith

  -- What `inclusion_proof` returns from two leaves on.
  pub inclusion_split :
      (xs : List Bytes) (m : ℕ)
      → 2 ≤ length xs
      → m < length xs
      → inclusion_proof sha256 xs m
        ≡ chosen
            (largest_pow2_lt (length xs))
            xs
            m
            (inclusion_proof sha256 (take (largest_pow2_lt (length xs)) xs) m)
            (inclusion_proof sha256
              (drop (largest_pow2_lt (length xs)) xs)
              (m - largest_pow2_lt (length xs)))
  inclusion_split [] m h lt = absurd (omega arith)
  inclusion_split (x ∷ xs) m h lt =
      let ls : List Bytes = x ∷ xs in
      let f = length xs in
      let k = largest_pow2_lt (length ls) in
      let b = split_bounds (length ls) h in
      sym (inclusion_enough (suc f) ls m (omega arith))
      ∙ inclusion_step f ls m h lt
      ∙ ap₂ (chosen k ls m) (inclusion_enough f (take k ls) m (omega (arith, b, length-take k ls)))
          (inclusion_enough f (drop k ls) (m - k) (omega (arith, b, length-drop k ls)))
