-- ===== src/Audit/Merkle.antt =====
-- crates/secgit-audit/src/merkle.rs: the RFC 6962 tree, its proofs and their verifiers.
-- SHA-256 is a parameter. A hash is a byte string; slices are `take` and `drop`; a panic is `none`.
pub mod Split
pub mod Inclusion
pub mod Completeness
pub mod Soundness
pub mod Tests
use secgit.Prelude.{
  ℕ, zero, suc, ◌+◌, ◌-◌, ◌*◌, ◌/◌, ◌%◌, ◌^◌, Bool, true, false, not, ◌&&◌, Option, none, some,
  List, [], ◌∷◌, ◌++◌, Bytes, bytes_eq, ltb, leb, ◌==◌, if◌then◌else◌, length, take, drop,
}
use secgit.Prelude.Bits.{bit_length, count_ones}
use Prim.Native.Nat.{bit_xor}

-- `while k << 1 < n { k <<= 1; }`; the fuel `n` is enough since `k` grows.
pow2_loop : ℕ → ℕ → ℕ → ℕ
pow2_loop zero k n = k
pow2_loop (suc f) k n = let rest = pow2_loop f (k * 2) n in if ltb (k * 2) n then rest else k

pub largest_pow2_lt : ℕ → ℕ
largest_pow2_lt n = pow2_loop n 1 n

-- `m >> inner` of the release build takes the shift modulo the word size.
unfoldable pub inner_proof_size : ℕ → ℕ → ℕ
unfolding bit_length
inner_proof_size index size = bit_length (bit_xor index (size - 1))

unfoldable pub border_proof_size : ℕ → ℕ → ℕ
unfolding count_ones inner_proof_size
border_proof_size m n = count_ones (m / 2 ^ (inner_proof_size m n % 64))

module _ (sha256 : Bytes → Bytes) where
  unfoldable pub leaf_hash : Bytes → Bytes
  leaf_hash payload = sha256 (0 ∷ payload)

  unfoldable pub node_hash : Bytes → Bytes → Bytes
  node_hash l r = sha256 (1 ∷ l ++ r)

  -- The recursion of `root`; the number of leaves is enough fuel.
  root_from : ℕ → List Bytes → Bytes
  root_from zero leaves = sha256 []
  root_from (suc f) [] = sha256 []
  root_from (suc f) (x ∷ []) = x
  root_from (suc f) (x ∷ y ∷ rest) =
      let leaves = x ∷ y ∷ rest in
      let k = largest_pow2_lt (length leaves) in
      node_hash (root_from f (take k leaves)) (root_from f (drop k leaves))

  unfoldable pub root : List Bytes → Bytes
  unfolding root_from
  root leaves = root_from (length leaves) leaves

  pub push : Bytes → Option (List Bytes) → Option (List Bytes)
  push h none = none
  push h (some p) = some (p ++ h ∷ [])

  -- `none` is the failed `assert!(m < n)`.
  inclusion_from : ℕ → List Bytes → ℕ → Option (List Bytes)
  inclusion_from zero leaves m = none
  inclusion_from (suc f) leaves m =
      let n = length leaves in
      let k = largest_pow2_lt n in
      let left = push (root (drop k leaves)) (inclusion_from f (take k leaves) m) in
      let right = push (root (take k leaves)) (inclusion_from f (drop k leaves) (m - k)) in
      let split = if ltb m k then left else right in
      if ltb m n then (if n == 1 then some [] else split) else none

  unfoldable pub inclusion_proof : List Bytes → ℕ → Option (List Bytes)
  unfolding inclusion_from push
  inclusion_proof leaves m = inclusion_from (length leaves) leaves m

  -- The loop over the inner siblings: bit `i` of `m` says whether we are the left child.
  pub fold_inner : ℕ → ℕ → Bytes → List Bytes → Bytes
  fold_inner m i acc [] = acc
  fold_inner m i acc (p ∷ ps) =
      fold_inner m (i + 1) (if m / 2 ^ i % 2 == 0 then node_hash acc p else node_hash p acc) ps

  -- The loop over the border siblings: we are always their right child.
  pub fold_border : Bytes → List Bytes → Bytes
  fold_border acc [] = acc
  fold_border acc (p ∷ ps) = fold_border (node_hash p acc) ps

  pub recompute : ℕ → ℕ → Bytes → List Bytes → Bytes
  recompute m inner leaf proof =
      fold_border (fold_inner m 0 leaf (take inner proof)) (drop inner proof)

  unfoldable pub verify_inclusion : Bytes → ℕ → ℕ → List Bytes → Bytes → Bool
  unfolding recompute fold_inner fold_border node_hash border_proof_size bytes_eq
  verify_inclusion leaf m n proof expected_root =
      let inner = inner_proof_size m n in
      if leb n m
      then false
      else if not (length proof == inner + border_proof_size m n)
      then false
      else bytes_eq (recompute m inner leaf proof) expected_root
