-- ===== src/Audit/Merkle/Tests.antt =====
-- Runs of the model of merkle.rs, and the theorems about it at concrete trees.
use secgit.Prelude.{
  ℕ, zero, suc, ◌+◌, ◌*◌, ◌%◌, ◌≡◌, refl, ◌⊎◌, true, some, none, List, [], ◌∷◌, Bytes, arith, All,
  length, get_elem?,
}
use secgit.Audit.Merkle.{
  largest_pow2_lt, pow2_loop, root, inclusion_proof, verify_inclusion, inner_proof_size,
}
use secgit.Audit.Merkle.Completeness.{verify_inclusion-inclusion_proof}
use secgit.Audit.Merkle.Soundness.{Collision, IsHash, verify_inclusion_sound}

checksum : Bytes → ℕ
checksum [] = 7
checksum (b ∷ bs) = (b + 31 * checksum bs) % 65521

zeros : ℕ → Bytes
zeros zero = []
zeros (suc n) = 0 ∷ zeros n

-- A stand-in for SHA-256 with digests of 32 numbers.
toy_digest : Bytes → Bytes
unfolding checksum zeros
toy_digest bs = checksum bs ∷ zeros 31

toy_digest-IsHash : (bs : Bytes) → IsHash (toy_digest bs)
unfolding toy_digest
toy_digest-IsHash bs = refl

abbrev leaf_at : ℕ → Bytes
leaf_at n = toy_digest (n ∷ [])

abbrev five : List Bytes
five = leaf_at 0 ∷ leaf_at 1 ∷ leaf_at 2 ∷ leaf_at 3 ∷ leaf_at 4 ∷ []

split_points : (largest_pow2_lt 2 ≡ 1) × (largest_pow2_lt 5 ≡ 4) × (largest_pow2_lt 8 ≡ 4)
unfolding largest_pow2_lt pow2_loop
split_points = (refl, refl, refl)

proof_sizes : (inner_proof_size 4 5 ≡ 0) × (inner_proof_size 3 5 ≡ 3)
unfolding inner_proof_size
proof_sizes = (refl, refl)

out_of_range : inclusion_proof toy_digest five 5 ≡ none
unfolding inclusion_proof largest_pow2_lt pow2_loop
out_of_range = refl

verify_inclusion-inclusion_proof_example :
    (proof : List Bytes) × (inclusion_proof toy_digest five 4 ≡ some proof)
    × (verify_inclusion toy_digest (leaf_at 4) 4 (length five) proof (root toy_digest five) ≡ true)
verify_inclusion-inclusion_proof_example =
    verify_inclusion-inclusion_proof toy_digest five 4 (leaf_at 4) (omega arith) refl

five-IsHash : All IsHash five
unfolding toy_digest
five-IsHash = omega arith

accepted_four :
    verify_inclusion toy_digest
      (leaf_at 4)
      4
      5
      (root toy_digest (leaf_at 0 ∷ leaf_at 1 ∷ leaf_at 2 ∷ leaf_at 3 ∷ []) ∷ [])
      (root toy_digest five)
    ≡ true
unfolding verify_inclusion root largest_pow2_lt pow2_loop toy_digest
accepted_four = refl

verify_inclusion_sound_example :
    ((get_elem? five 4 ≡ some (leaf_at 4))
      × (inclusion_proof toy_digest five 4
          ≡ some (root toy_digest (leaf_at 0 ∷ leaf_at 1 ∷ leaf_at 2 ∷ leaf_at 3 ∷ []) ∷ [])))
    ⊎ Collision toy_digest
verify_inclusion_sound_example =
    verify_inclusion_sound toy_digest toy_digest-IsHash five 4 (leaf_at 4)
      (root toy_digest (leaf_at 0 ∷ leaf_at 1 ∷ leaf_at 2 ∷ leaf_at 3 ∷ []) ∷ []) five-IsHash
      (toy_digest-IsHash (4 ∷ [])) (omega arith) accepted_four
