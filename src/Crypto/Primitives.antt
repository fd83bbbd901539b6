-- ===== src/Crypto/Primitives.antt =====
-- crates/secgit-crypto/src/primitives.rs: HKDF over HMAC-SHA384, and the equality test of tags.
-- HMAC (aws-lc-rs) is the parameter `hmac`, a key and a text to a tag of 48 bytes.
pub mod Expand
pub mod Equality
pub mod Tests
use Prim.Native.Nat.{bit_or, bit_xor}
use secgit.Prelude.{
  ℕ, zero, suc, ◌-◌, Bool, false, not, [], ◌∷◌, ◌++◌, Bytes, length, take, ltb, ◌==◌, if◌then◌else◌,
}
use secgit.Crypto.Error.{backend, Result, ok, err}

module _ (hmac : Bytes → Bytes → Bytes) where
  -- The loop of HKDF's second half. The counter is 255 less `room`, the number of times that
  -- `checked_add` still succeeds, so the recursion needs no other bound.
  expand : ℕ → Bytes → Bytes → ℕ → Bytes → Bytes → Result Bytes
  expand zero prk info out_len out prev =
      if ltb (length out) out_len then err backend else ok (take out_len out)
  expand (suc room) prk info out_len out prev =
      let t = hmac prk ((prev ++ info) ++ (255 - suc room) ∷ []) in
      let rest = expand room prk info out_len (out ++ t) t in
      if ltb (length out) out_len then rest else ok (take out_len out)

  unfoldable pub hkdf_sha384 : Bytes → Bytes → Bytes → ℕ → Result Bytes
  unfolding expand
  hkdf_sha384 ikm salt info out_len = let prk = hmac salt ikm in expand 254 prk info out_len [] []

-- The differing bits of two texts, gathered along the shorter one.
gather : ℕ → Bytes → Bytes → ℕ
gather diff [] ys = diff
gather diff (x ∷ xs) [] = diff
gather diff (x ∷ xs) (y ∷ ys) = gather (bit_or diff (bit_xor x y)) xs ys

pub ct_eq : Bytes → Bytes → Bool
unfolding gather
ct_eq a b = if not (length a == length b) then false else gather 0 a b == 0
