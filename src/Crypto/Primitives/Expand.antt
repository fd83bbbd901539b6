-- ===== src/Crypto/Primitives/Expand.antt =====
-- primitives.rs, `hkdf_sha384`: the output against the block chain of RFC 5869, and its length.
use secgit.Prelude.{
  ℕ, zero, suc, ◌+◌, ◌-◌, ◌*◌, ◌≤◌, ◌<◌, ◌≡◌, refl, [], ◌∷◌, ◌++◌, Bytes, arith, length,
  length-append, length-take, append_assoc, append-nil, take, take-le, ltb, lt→ltb, le→ltb,
  Bool-cases, inl, inr,
}
use secgit.Crypto.Error.{backend, ok, err}
use secgit.Crypto.Primitives.{expand, hkdf_sha384}

module _ (hmac : Bytes → Bytes → Bytes) where
  -- `n` blocks of the chain, each the tag of the block before it, `info` and a counter.
  pub blocks : ℕ → Bytes → Bytes → Bytes → ℕ → Bytes
  blocks zero prk info prev counter = []
  blocks (suc n) prk info prev counter =
      let t = hmac prk ((prev ++ info) ++ counter ∷ []) in t ++ blocks n prk info t (suc counter)

  module _ (sized : (k m : Bytes) → length (hmac k m) ≡ 48) where
    length-blocks :
        (n : ℕ) (prk info prev : Bytes) (counter : ℕ)
        → length (blocks n prk info prev counter) ≡ 48 * n
    unfolding blocks
    length-blocks zero prk info prev counter = refl
    length-blocks (suc n) prk info prev counter =
        let t = hmac prk ((prev ++ info) ++ counter ∷ []) in
        omega (
          arith,
          length-append t (blocks n prk info t (suc counter)),
          sized prk ((prev ++ info) ++ counter ∷ []),
          length-blocks n prk info t (suc counter),
        )

    expand-blocks :
        (room : ℕ) (prk info : Bytes) (out_len : ℕ) (out prev : Bytes) (counter : ℕ)
        → counter + room ≡ 255
        → out_len ≤ length out + 48 * room
        → expand hmac room prk info out_len out prev
          ≡ ok (take out_len (out ++ blocks room prk info prev counter))
    unfolding expand blocks
    expand-blocks zero prk info out_len out prev counter c h =
        rw (le→ltb (length out) out_len (omega arith), append-nil out) refl
    expand-blocks (suc room) prk info out_len out prev counter c h =
        let now : 255 - suc room ≡ counter = omega arith in
        let t = hmac prk ((prev ++ info) ++ counter ∷ []) in
        let more = blocks room prk info t (suc counter) in
        elim (Bool-cases (ltb (length out) out_len)) [
          | inl short ↦
              let long : out_len ≤ length (out ++ t) + 48 * room =
                omega (arith, length-append out t, sized prk ((prev ++ info) ++ counter ∷ [])) in
              rw (now, short, ← append_assoc out t more)
                (expand-blocks room prk info out_len (out ++ t) t (suc counter) (omega arith) long)
          | inr full ↦
              let enough : out_len ≤ length out = ground arith in
              rw (full, take-le out_len out (t ++ more) enough) refl
        ]

    expand-err :
        (room : ℕ) (prk info : Bytes) (out_len : ℕ) (out prev : Bytes)
        → length out + 48 * room < out_len
        → expand hmac room prk info out_len out prev ≡ err backend
    unfolding expand
    expand-err zero prk info out_len out prev h =
        rw (lt→ltb (length out) out_len (omega arith)) refl
    expand-err (suc room) prk info out_len out prev h =
        let text = (prev ++ info) ++ (255 - suc room) ∷ [] in
        let t = hmac prk text in
        rw (lt→ltb (length out) out_len (omega arith)) (
          expand-err room prk info out_len (out ++ t) t
            (omega (arith, length-append out t, sized prk text)))

    -- With tags of 48 bytes, up to 254 blocks of key material can be drawn: the loop returns a key
    -- of exactly `out_len` bytes, the first ones of the chain of blocks under the key that the
    -- first half extracted, with the counter from 1.
    pub hkdf_sha384-blocks :
        (ikm salt info : Bytes) (out_len : ℕ)
        → out_len ≤ 48 * 254
        → (key : Bytes) × (hkdf_sha384 hmac ikm salt info out_len ≡ ok key)
          × (key ≡ take out_len (blocks 254 (hmac salt ikm) info [] 1))
          × (length key ≡ out_len)
    unfolding hkdf_sha384
    hkdf_sha384-blocks ikm salt info out_len h =
        let chain = blocks 254 (hmac salt ikm) info [] 1 in
        (
          take out_len chain,
          expand-blocks 254 (hmac salt ikm) info out_len [] [] 1 refl h,
          refl,
          omega (arith, length-take out_len chain, length-blocks 254 (hmac salt ikm) info [] 1),
        )

    -- With tags of 48 bytes, a request for more than 254 blocks ends in an error, the one for a
    -- 255th block, which the counter could still number, included.
    pub hkdf_sha384-err :
        (ikm salt info : Bytes) (out_len : ℕ)
        → 48 * 254 < out_len
        → hkdf_sha384 hmac ikm salt info out_len ≡ err backend
    unfolding hkdf_sha384
    hkdf_sha384-err ikm salt info out_len h = expand-err 254 (hmac salt ikm) info out_len [] [] h
