-- ===== src/Crypto/Primitives/Tests.antt =====
-- Runs of the model of primitives.rs, and its theorems at concrete inputs.
use secgit.Prelude.{
  ℕ, zero, suc, ◌≡◌, refl, ap, ◌↔◌, true, false, [], ◌∷◌, Bytes, arith, length, take,
}
use secgit.Crypto.Error.{backend, ok, err}
use secgit.Crypto.Primitives.{hkdf_sha384, ct_eq}
use secgit.Crypto.Primitives.Expand.{blocks, hkdf_sha384-blocks, hkdf_sha384-err}
use secgit.Crypto.Primitives.Equality.{ct_eq_iff}

repeat : ℕ → ℕ → Bytes
repeat zero b = []
repeat (suc n) b = b ∷ repeat n b

length-repeat : (n b : ℕ) → length (repeat n b) ≡ n
unfolding repeat
length-repeat zero b = refl
length-repeat (suc n) b = ap suc (length-repeat n b)

-- A stand-in for HMAC: 48 times the length of the text.
toy_hmac : Bytes → Bytes → Bytes
toy_hmac k m = repeat 48 (length m)

toy_hmac-sized : (k m : Bytes) → length (toy_hmac k m) ≡ 48
unfolding toy_hmac
toy_hmac-sized k m = length-repeat 48 (length m)

hkdf_sha384-blocks_example :
    (key : Bytes) × (hkdf_sha384 toy_hmac (1 ∷ []) (2 ∷ []) (3 ∷ []) 50 ≡ ok key)
    × (key ≡ take 50 (blocks toy_hmac 254 (toy_hmac (2 ∷ []) (1 ∷ [])) (3 ∷ []) [] 1))
    × (length key ≡ 50)
hkdf_sha384-blocks_example =
    hkdf_sha384-blocks toy_hmac toy_hmac-sized (1 ∷ []) (2 ∷ []) (3 ∷ []) 50 (omega arith)

hkdf_sha384-err_example : hkdf_sha384 toy_hmac (1 ∷ []) (2 ∷ []) (3 ∷ []) 12240 ≡ err backend
hkdf_sha384-err_example =
    hkdf_sha384-err toy_hmac toy_hmac-sized (1 ∷ []) (2 ∷ []) (3 ∷ []) 12240 (omega arith)

ct_eq-sample : ct_eq (97 ∷ 98 ∷ []) (97 ∷ 99 ∷ []) ≡ false
unfolding ct_eq
ct_eq-sample = refl

abbrev tag : Bytes
tag = 97 ∷ 98 ∷ []

ct_eq_iff_example : (ct_eq tag tag ≡ true) ↔ (tag ≡ tag)
ct_eq_iff_example = ct_eq_iff tag tag
