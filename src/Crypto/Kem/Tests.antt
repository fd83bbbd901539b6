-- ===== src/Crypto/Kem/Tests.antt =====
-- Runs of the model of kem.rs, and its theorems at concrete inputs.
use secgit.Prelude.{◌≡◌, refl, some, [], ◌∷◌, Bytes, length, arith}
use secgit.Crypto.Error.{ok, err, kind_byte}
use secgit.Crypto.Aead.{nonce_len}
use secgit.Crypto.Primitives.{hkdf_sha384}
use secgit.Crypto.Envelope.{encode}
use secgit.Prelude.Words.{le_bytes}
use secgit.Crypto.Kem.{
  RecipientKeypair, to_bytes, from_bytes, public, generate, open_wrapped, seal_to,
}
use secgit.Crypto.Kem.RoundTrip.{from_bytes-to_bytes, open_wrapped-seal_to}
use secgit.Crypto.Kem.Fixtures.{
  repeat, length-repeat, toy_public, toy_hmac, toy_cipher, toy_library,
}

abbrev pair : RecipientKeypair
pair = record { x_secret = 5 ∷ []; x_public = repeat 32 5; mlkem_dk = 9 ∷ []; mlkem_ek = 9 ∷ [] }

generated : generate toy_hmac toy_cipher toy_library (some (5 ∷ [])) (some (9 ∷ [])) ≡ ok pair
unfolding generate toy_library toy_public toy_cipher toy_hmac
generated = refl

abbrev nonce : Bytes
nonce = repeat 12 1

envelope : Bytes
envelope =
    elim (seal_to toy_hmac toy_cipher toy_library (some (3 ∷ [])) (some nonce) (public pair)
      (1 ∷ 2 ∷ [])) [ ok e ↦ e | err e ↦ [] ]

sealed_to :
    seal_to toy_hmac toy_cipher toy_library (some (3 ∷ [])) (some nonce) (public pair) (1 ∷ 2 ∷ [])
    ≡ ok envelope
unfolding envelope seal_to toy_library hkdf_sha384 encode kind_byte le_bytes toy_cipher public
    toy_hmac
sealed_to = refl

open_wrapped-seal_to_example :
    open_wrapped toy_hmac toy_cipher toy_library pair envelope ≡ ok (1 ∷ 2 ∷ [])
open_wrapped-seal_to_example =
    open_wrapped-seal_to toy_hmac toy_cipher toy_library (some (5 ∷ [])) (some (9 ∷ []))
      (some (3 ∷ [])) (some nonce) pair (1 ∷ 2 ∷ []) envelope twelve generated sealed_to
  where
    twelve : (n : Bytes) → some nonce ≡ some n → length n ≡ nonce_len
    twelve n e = let same : nonce ≡ n = cc in rw (← same) (length-repeat 12 1)

from_bytes-sample : from_bytes (to_bytes (public pair)) ≡ ok (public pair)
unfolding public
from_bytes-sample = from_bytes-to_bytes (public pair) (length-repeat 32 5) (omega arith)
