-- ===== src/Audit/Merkle/Soundness.antt =====
-- What acceptance by `verify_inclusion` of merkle.rs proves about the leaf.
use secgit.Prelude.{
  ℕ, zero, suc, ◌+◌, ◌/◌, ◌%◌, ◌^◌, ◌≤◌, ◌<◌, ◌≡◌, ◌≢◌, refl, sym, ap, ap₂, ◌∙◌, ◌⊎◌, inl, inr,
  true, some, List, [], ◌∷◌, ◌++◌, Bytes, arith, ◌==◌, Bool-cases, All, bytes_eq, bytes_eq_iff,
  length, take, drop, get_elem?, length-append, length-take, length-drop, take-append-drop,
}
use secgit.Audit.Merkle.{
  node_hash, root, inner_proof_size, border_proof_size, fold_inner, fold_border, recompute,
  verify_inclusion, inclusion_proof,
}
use secgit.Audit.Merkle.Inclusion.{join}
use secgit.Audit.Merkle.Completeness.{verify_inclusion-inclusion_proof}

-- Two different inputs with one digest.
pub record Collision (sha256 : Bytes → Bytes) : Type 0 where
  pub one : Bytes
  pub other : Bytes
  pub differs : one ≢ other
  pub same : sha256 one ≡ sha256 other

-- A 32-byte value, as the type `[u8; 32]` has it.
abbrev pub IsHash : Bytes → Type 0
IsHash h = length h ≡ 32

append_split : (a b c d : Bytes) → length a ≡ length c → a ++ b ≡ c ++ d → (a ≡ c) × (b ≡ d)
append_split [] b [] d e h = (refl, h)
append_split [] b (z ∷ c) d e h = absurd (omega arith)
append_split (x ∷ a) b [] d e h = absurd (omega arith)
append_split (x ∷ a) b (z ∷ c) d e h =
    let (tail, rest) = append_split a b c d (omega arith) (cc) in (cc, rest)

-- Elements of a list of hashes are hashes.
get_elem?-All {ℓ κ} :
    {A : Type ℓ} (P : A → Type κ) (xs : List A) (i : ℕ)
    → i < length xs
    → All P xs
    → (x : A) × (get_elem? xs i ≡ some x) × P x
get_elem?-All P [] i h a = absurd (omega arith)
get_elem?-All P (x ∷ xs) zero h a = (x, refl, a.0)
get_elem?-All P (x ∷ xs) (suc i) h a = get_elem?-All P xs i (omega arith) a.1

module _ (sha256 : Bytes → Bytes) (digest_size : (x : Bytes) → IsHash (sha256 x)) where
  -- Equal nodes have equal children, or their inputs collide.
  node_split :
      (a b c d : Bytes)
      → length a ≡ length c ⊎ length b ≡ length d
      → node_hash sha256 a b ≡ node_hash sha256 c d
      → ((a ≡ c) × (b ≡ d)) ⊎ Collision sha256
  unfolding node_hash
  node_split a b c d e h = elim (Bool-cases (bytes_eq (a ++ b) (c ++ d))) [
    | inl same ↦
        let p = (bytes_eq_iff (a ++ b) (c ++ d)).0 same in
        inl (
          append_split a b c d (omega (arith, ap length p, length-append a b, length-append c d, e))
            p)
    | inr new ↦ inr (record {
      one = 1 ∷ a ++ b;
      other = 1 ∷ c ++ d;
      differs = λ p. cc (new, (bytes_eq_iff (a ++ b) (c ++ d)).1 (∷-tail p));
      same = h;
    })
  ]
    where
      ∷-tail : {x y : ℕ} {xs ys : Bytes} → x ∷ xs ≡ y ∷ ys → xs ≡ ys
      ∷-tail p = cc

  node-IsHash : (a b : Bytes) → IsHash (node_hash sha256 a b)
  unfolding node_hash
  node-IsHash a b = digest_size (1 ∷ a ++ b)

  join-IsHash : (m i : ℕ) (a p : Bytes) → IsHash (join sha256 m i a p)
  join-IsHash m i a p = elim (Bool-cases (m / 2 ^ i % 2 == 0)) [
    | inl l ↦ rw l (node-IsHash a p)
    | inr r ↦ rw r (node-IsHash p a)
  ]

  join_split :
      (m i : ℕ) (a b p q : Bytes)
      → IsHash a
      → IsHash b
      → join sha256 m i a p ≡ join sha256 m i b q
      → ((a ≡ b) × (p ≡ q)) ⊎ Collision sha256
  join_split m i a b p q ha hb e = elim (Bool-cases (m / 2 ^ i % 2 == 0)) [
    | inl l ↦ node_split a p b q (inl (omega arith)) (rw l at e)
    | inr r ↦ elim (node_split p a q b (inr (omega arith)) (rw r at e)) [
      | inl s ↦ inl (s.1, s.0)
      | inr c ↦ inr c
    ]
  ]

  -- Two runs of a loop that end in one hash began in one hash and took the same siblings.
  fold_inner_split :
      (m i : ℕ) (a b : Bytes) (ps qs : List Bytes)
      → length ps ≡ length qs
      → IsHash a
      → IsHash b
      → fold_inner sha256 m i a ps ≡ fold_inner sha256 m i b qs
      → ((a ≡ b) × (ps ≡ qs)) ⊎ Collision sha256
  unfolding fold_inner
  fold_inner_split m i a b [] [] e ha hb h = inl (h, refl)
  fold_inner_split m i a b [] (q ∷ qs) e ha hb h = absurd (omega arith)
  fold_inner_split m i a b (p ∷ ps) [] e ha hb h = absurd (omega arith)
  fold_inner_split m i a b (p ∷ ps) (q ∷ qs) e ha hb h =
      elim (fold_inner_split m (i + 1) (join sha256 m i a p) (join sha256 m i b q) ps qs
        (omega arith) (join-IsHash m i a p) (join-IsHash m i b q) h) [
          | inr c ↦ inr c
          | inl s ↦ elim (join_split m i a b p q ha hb s.0) [
            | inr c ↦ inr c
            | inl t ↦ inl (t.0, cc (t.1, s.1))
          ]
        ]

  fold_inner-IsHash :
      (m i : ℕ) (a : Bytes) (ps : List Bytes) → IsHash a → IsHash (fold_inner sha256 m i a ps)
  unfolding fold_inner
  fold_inner-IsHash m i a [] h = h
  fold_inner-IsHash m i a (p ∷ ps) h =
      fold_inner-IsHash m (i + 1) (join sha256 m i a p) ps (join-IsHash m i a p)

  fold_border_split :
      (a b : Bytes) (ps qs : List Bytes)
      → length ps ≡ length qs
      → IsHash a
      → IsHash b
      → fold_border sha256 a ps ≡ fold_border sha256 b qs
      → ((a ≡ b) × (ps ≡ qs)) ⊎ Collision sha256
  unfolding fold_border
  fold_border_split a b [] [] e ha hb h = inl (h, refl)
  fold_border_split a b [] (q ∷ qs) e ha hb h = absurd (omega arith)
  fold_border_split a b (p ∷ ps) [] e ha hb h = absurd (omega arith)
  fold_border_split a b (p ∷ ps) (q ∷ qs) e ha hb h =
      elim (fold_border_split (node_hash sha256 p a) (node_hash sha256 q b) ps qs (omega arith)
        (node-IsHash p a) (node-IsHash q b) h) [
          | inr c ↦ inr c
          | inl s ↦ elim (node_split p a q b (inr (omega arith)) s.0) [
            | inr c ↦ inr c
            | inl t ↦ inl (t.1, cc (t.0, s.1))
          ]
        ]

  recompute_split :
      (m inner : ℕ) (a b : Bytes) (ps qs : List Bytes)
      → length ps ≡ length qs
      → IsHash a
      → IsHash b
      → recompute sha256 m inner a ps ≡ recompute sha256 m inner b qs
      → ((a ≡ b) × (ps ≡ qs)) ⊎ Collision sha256
  unfolding recompute
  recompute_split m inner a b ps qs e ha hb h =
      elim (fold_border_split (fold_inner sha256 m 0 a (take inner ps))
        (fold_inner sha256 m 0 b (take inner qs)) (drop inner ps) (drop inner qs)
        (omega (arith, length-drop inner ps, length-drop inner qs))
        (fold_inner-IsHash m 0 a (take inner ps) ha) (fold_inner-IsHash m 0 b (take inner qs) hb)
        h) [
          | inr c ↦ inr c
          | inl s ↦
              elim (fold_inner_split m 0 a b (take inner ps) (take inner qs)
                (omega (arith, length-take inner ps, length-take inner qs)) ha hb s.0) [
                  | inr c ↦ inr c
                  | inl t ↦ inl (
                    t.0,
                    sym (take-append-drop inner ps) ∙ ap₂ ◌++◌ t.1 s.1 ∙ take-append-drop inner qs,
                  )
                ]
        ]

  accepted :
      (leaf : Bytes) (m n : ℕ) (proof : List Bytes) (expected_root : Bytes)
      → verify_inclusion sha256 leaf m n proof expected_root ≡ true
      → (m < n)
        × (length proof ≡ inner_proof_size m n + border_proof_size m n)
        × (recompute sha256 m (inner_proof_size m n) leaf proof ≡ expected_root)
  unfolding verify_inclusion
  accepted leaf m n proof expected_root h =
      ground
        (arith, bytes_eq_iff (recompute sha256 m (inner_proof_size m n) leaf proof) expected_root)

  -- For a hash function with 32-byte digests, and a tree of at most 2 ^ 63 hashes: if the verifier
  -- accepts a 32-byte leaf at an index, with any proof, then the tree has that leaf at that index and
  -- the proof is the one that the prover returns, or else two inputs with one digest are at hand.
  pub verify_inclusion_sound :
      (leaves : List Bytes) (m : ℕ) (leaf : Bytes) (proof : List Bytes)
      → All IsHash leaves
      → IsHash leaf
      → length leaves ≤ 2 ^ 63
      → verify_inclusion sha256 leaf m (length leaves) proof (root sha256 leaves) ≡ true
      → ((get_elem? leaves m ≡ some leaf) × (inclusion_proof sha256 leaves m ≡ some proof))
        ⊎ Collision sha256
  verify_inclusion_sound leaves m leaf proof hs h fits ok =
      let n = length leaves in
      let (lt, sized, leads) = accepted leaf m n proof (root sha256 leaves) ok in
      let (x, at_m, hx) = get_elem?-All IsHash leaves m lt hs in
      let (p, made, ok') = verify_inclusion-inclusion_proof sha256 leaves m x fits at_m in
      let (lt', sized', leads') = accepted x m n p (root sha256 leaves) ok' in
      elim (recompute_split m (inner_proof_size m n) leaf x proof p (omega arith) h hx
        (leads ∙ sym leads')) [ inr c ↦ inr c | inl s ↦ inl (rw s.0 at_m, rw s.1 made) ]
