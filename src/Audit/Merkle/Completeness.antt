-- ===== src/Audit/Merkle/Completeness.antt =====
-- Every honest inclusion proof of merkle.rs passes the verifier.
use native.Mathlib.Nat.{two-pow-succ}
use native.Mathlib.Decide.{dec_lt}
use secgit.Prelude.{
  ℕ, zero, suc, ◌+◌, ◌-◌, ◌%◌, ◌^◌, ◌≤◌, ◌<◌, ◌≡◌, refl, sym, ap, ◌∙◌, true, some, List, [], ◌∷◌,
  ◌++◌, Bytes, arith, lt→leb, ==_iff, length, take, drop, get_elem?, length-append, length-take,
  length-drop, take-le, drop-le, take_all, drop_all, get_elem?-take, get_elem?-drop, bytes_eq_refl,
  ◌==◌,
}
use secgit.Prelude.Bits.{count_ones}
use secgit.Audit.Merkle.{
  root, inclusion_proof, inner_proof_size, border_proof_size, fold_inner, fold_border, recompute,
  verify_inclusion,
}
use secgit.Audit.Merkle.Split.{root_one, inclusion_one}
use secgit.Audit.Merkle.Inclusion.{
  get_elem?-lt, inner_left, inner_right, inner-le, ones_above, ones_above_zero, ones_above_right,
  fold_inner_below, fold_border-push, root_at, proof_left, proof_right, full_tree, fold_left,
}

module _ (sha256 : Bytes → Bytes) where
  -- The proof that the prover returns, its length, and the root that it leads to.
  pub record Honest (xs : List Bytes) (m : ℕ) (x : Bytes) : Type 0 where
    pub proof : List Bytes
    pub made : inclusion_proof sha256 xs m ≡ some proof
    pub sized :
        length proof
        ≡ inner_proof_size m (length xs) + ones_above m (inner_proof_size m (length xs))
    pub leads : recompute sha256 m (inner_proof_size m (length xs)) x proof ≡ root sha256 xs

  module _ (j : ℕ) (xs : List Bytes) (lo : 2 ^ j < length xs) (hi : length xs ≤ 2 ^ suc j) where
    left-Honest : (m : ℕ) (x : Bytes) → m < 2 ^ j → get_elem? xs m ≡ some x → Honest xs m x
    unfolding recompute fold_border
    left-Honest m x h e =
        let (p, made, sized, folded) =
          full_tree sha256 j (take (2 ^ j) xs) m x (omega (arith, length-take (2 ^ j) xs))
            (get_elem?-take (2 ^ j) xs m h ∙ e) in
        let q = root sha256 (drop (2 ^ j) xs) in
        let n : length (p ++ q ∷ []) ≡ suc j = omega (arith, length-append p (q ∷ [])) in
        let inner = inner_left j m (length xs) h lo hi in
        record {
          proof = p ++ q ∷ [];
          made = proof_left sha256 j xs lo hi m p h made;
          sized = rw inner (omega (arith, n, ones_above_zero j m h));
          leads =
              rw
                (
                  inner,
                  take_all (suc j) (p ++ q ∷ []) (sym n),
                  drop_all (suc j) (p ++ q ∷ []) (sym n),
                )
                (fold_left sha256 j xs lo hi m x p h sized folded);
        }

    right-Honest :
        (m : ℕ) (x : Bytes)
        → 2 ^ j ≤ m
        → m < length xs
        → Honest (drop (2 ^ j) xs) (m - 2 ^ j) x
        → Honest xs m x
    unfolding recompute
    right-Honest m x h lt r =
        let i = inner_proof_size (m - 2 ^ j) (length xs - 2 ^ j) in
        let q = root sha256 (take (2 ^ j) xs) in
        let rest : length (drop (2 ^ j) xs) ≡ length xs - 2 ^ j = length-drop (2 ^ j) xs in
        let inner : inner_proof_size m (length xs) ≡ i = inner_right j m (length xs) h lt hi in
        let small : i ≤ j =
          inner-le j (m - 2 ^ j) (length xs - 2 ^ j) (omega arith)
            (omega (arith, two-pow-succ j)) in
        let sized : length r.proof ≡ i + ones_above (m - 2 ^ j) i = rw rest at r.sized in
        let leads : recompute sha256 (m - 2 ^ j) i x r.proof ≡ root sha256 (drop (2 ^ j) xs) =
          rw rest at r.leads in
        let fits : i ≤ length r.proof = omega arith in
        let top : m ≡ 2 ^ j + (m - 2 ^ j) = omega arith in
        let start = take i r.proof in
        let low : fold_inner sha256 m 0 x start ≡ fold_inner sha256 (m - 2 ^ j) 0 x start =
          ap (λ t. fold_inner sha256 t 0 x start) top
          ∙ fold_inner_below sha256 j (m - 2 ^ j) 0 x start
              (omega (arith, length-take i r.proof)) in
        record {
          proof = r.proof ++ q ∷ [];
          made = proof_right sha256 j xs lo hi m r.proof h lt r.made;
          sized = rw inner (
              omega (
                arith,
                length-append r.proof (q ∷ []),
                ones_above_right j i m small h (omega arith),
              ));
          leads =
              rw (inner, take-le i r.proof (q ∷ []) fits, drop-le i r.proof (q ∷ []) fits)
                (rw (
                  low,
                  fold_border-push sha256 (fold_inner sha256 (m - 2 ^ j) 0 x start) (drop i r.proof)
                      q,
                  leads,
                  root_at sha256 j xs lo hi,
                ));
        }

  pub honest :
      (j : ℕ) (xs : List Bytes) (m : ℕ) (x : Bytes)
      → length xs ≤ 2 ^ j
      → get_elem? xs m ≡ some x
      → Honest xs m x
  unfolding recompute fold_inner fold_border inner_proof_size count_ones
  honest zero [] m x h e = cc
  honest zero (y ∷ []) zero x h e = record {
    proof = [];
    made = inclusion_one sha256 y;
    sized = refl;
    leads = cc (root_one sha256 y);
  }
  honest zero (y ∷ []) (suc m) x h e = cc
  honest zero (y ∷ z ∷ xs) m x h e = absurd (omega arith)
  honest (suc j) xs m x h e =
      let lt = get_elem?-lt xs m e in
      elim (dec_lt (2 ^ j) (length xs)) [
        | no few ↦ honest j xs m x (omega arith) e
        | yes lo ↦ elim (dec_lt m (2 ^ j)) [
          | yes l ↦ left-Honest j xs lo h m x l e
          | no r ↦ right-Honest j xs lo h m x (omega arith) lt (
              honest j (drop (2 ^ j) xs) (m - 2 ^ j) x
                (omega (arith, length-drop (2 ^ j) xs, two-pow-succ j))
                (get_elem?-drop (2 ^ j) xs (m - 2 ^ j) m (omega arith) ∙ e))
        ]
      ]

  -- Below 2 ^ 63 leaves the shift of the border is not taken modulo the word.
  pub border-ones_above :
      (m n : ℕ) → m < n → n ≤ 2 ^ 63 → border_proof_size m n ≡ ones_above m (inner_proof_size m n)
  unfolding border_proof_size
  border-ones_above m n h fits =
      let small : inner_proof_size m n % 64 ≡ inner_proof_size m n =
        omega (arith, inner-le 63 m n h fits) in
      rw small

  -- Whatever the hash function, for every leaf of a tree of at most 2 ^ 63 leaves the prover returns
  -- a proof, and the verifier accepts it against the tree's root.
  pub verify_inclusion-inclusion_proof :
      (leaves : List Bytes) (m : ℕ) (leaf : Bytes)
      → length leaves ≤ 2 ^ 63
      → get_elem? leaves m ≡ some leaf
      → (proof : List Bytes) × (inclusion_proof sha256 leaves m ≡ some proof)
        × (verify_inclusion sha256 leaf m (length leaves) proof (root sha256 leaves) ≡ true)
  unfolding verify_inclusion
  verify_inclusion-inclusion_proof leaves m leaf fits e =
      let lt = get_elem?-lt leaves m e in
      let n = length leaves in
      let r = honest 63 leaves m leaf fits e in
      let counted : (length r.proof == inner_proof_size m n + border_proof_size m n) ≡ true =
        (==_iff _ _).1 (omega (arith, r.sized, border-ones_above m n lt fits)) in
      (r.proof, r.made, rw (lt→leb n m lt, counted, r.leads) (bytes_eq_refl (root sha256 leaves)))
