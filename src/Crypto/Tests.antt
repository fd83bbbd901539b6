-- ===== src/Crypto/Tests.antt =====
-- Runs of the models of secgit-crypto, and the theorems about them at concrete inputs.
use secgit.Prelude.Words.{le_bytes, from_le}
use secgit.Prelude.{ℕ, ◌≡◌, refl, some, none, Option, [], ◌∷◌, ◌++◌, Bytes, codes, arith, length}
use secgit.Crypto.Error.{
  ok, err, malformed, unknown_version, auth_failed, signature, AeadScheme, aes256_gcm, kind_byte,
  kind_from_u8, scheme_u16, scheme_from_u16,
}
use secgit.Crypto.Envelope.{Envelope, encode, decode, decode-encode, encode-decode}
use secgit.Crypto.Framing.{
  Writer, new_writer, put_lp32, read_lp32, reading, read_lp32-put_lp32, read, new_reader, rest,
}
use secgit.Crypto.Aead.{Cipher, seal, open_sealed, wrap_key, unwrap_key, nonce_len, sealed_envelope}
use secgit.Crypto.Aead.RoundTrip.{open_sealed-seal, unwrap_key-wrap_key, open_sealed-ok}

sample : Envelope
sample = record { kind = signature; scheme = 513; version = 1; body = 9 ∷ 8 ∷ [] }

abbrev sample_bytes : Bytes
sample_bytes = b'S' ∷ b'G' ∷ b'X' ∷ b'1' ∷ 3 ∷ 1 ∷ 2 ∷ 1 ∷ 9 ∷ 8 ∷ []

encode-sample : encode sample ≡ sample_bytes
unfolding encode sample kind_byte le_bytes
encode-sample = refl

decode-sample : decode sample_bytes ≡ ok sample
unfolding decode sample kind_from_u8 from_le
decode-sample = refl

decode-encode_example : decode (encode sample) ≡ ok sample
unfolding sample
decode-encode_example = decode-encode sample (omega arith)

encode-decode_example : encode sample ≡ sample_bytes
encode-decode_example = encode-decode sample_bytes sample (omega arith) decode-sample

abbrev short : Bytes
short = b'S' ∷ []

short_run : decode short ≡ err (malformed "short envelope")
unfolding decode
short_run = refl

bad_magic_run : decode (codes "SGX2" ++ 2 ∷ 1 ∷ 0 ∷ 1 ∷ []) ≡ err (malformed "bad magic")
unfolding decode
bad_magic_run = refl

abbrev two_fields : Writer
two_fields = put_lp32 new_writer (1 ∷ 2 ∷ 3 ∷ [])

read_lp32-put_lp32-sample :
    read_lp32 (reading two_fields (put_lp32 two_fields (7 ∷ [])) (5 ∷ []))
    ≡ ok (7 ∷ [], reading (put_lp32 two_fields (7 ∷ [])) (put_lp32 two_fields (7 ∷ [])) (5 ∷ []))
read_lp32-put_lp32-sample = read_lp32-put_lp32 two_fields (7 ∷ []) (5 ∷ []) (omega arith)

-- A stand-in for the cipher: the key's first byte in front of the text.
tag : Bytes → ℕ
tag [] = 0
tag (b ∷ bs) = b

untag : Bytes → Option Bytes
untag [] = none
untag (t ∷ text) = some text

untag-tag : (a b c d e f : Bytes) → some (tag a ∷ d) ≡ some e → untag e ≡ some d
unfolding untag
untag-tag a b c d e f h = ground arith

unfoldable pub toy_cipher : Cipher
unfolding tag untag untag-tag
toy_cipher = record {
  seal_in_place = λ s key nonce aad plain. some (tag key ∷ plain);
  open_in_place = λ s key nonce aad sealed. untag sealed;
  open-seal = λ s key nonce aad plain sealed h. untag-tag key nonce aad plain sealed [] h;
}

abbrev nonce : Bytes
nonce = codes "twelve bytes"

abbrev sealed_ok : Bytes
sealed_ok = b'S' ∷ b'G' ∷ b'X' ∷ b'1' ∷ 1 ∷ 1 ∷ 0 ∷ 1 ∷ (nonce ++ (75 ∷ 4 ∷ 2 ∷ []))

seal_run : seal toy_cipher (some nonce) aes256_gcm (75 ∷ []) [] (4 ∷ 2 ∷ []) ≡ ok sealed_ok
unfolding seal encode toy_cipher kind_byte le_bytes scheme_u16
seal_run = refl

open_run : open_sealed toy_cipher (75 ∷ []) [] sealed_ok ≡ ok (4 ∷ 2 ∷ [])
unfolding open_sealed decode toy_cipher kind_from_u8 scheme_from_u16 from_le read new_reader rest
open_run = refl

open_refused :
    (open_sealed toy_cipher [] [] sample_bytes ≡ err (malformed "not an aead envelope"))
    × (open_sealed toy_cipher [] [] (b'S' ∷ b'G' ∷ b'X' ∷ b'1' ∷ 1 ∷ 1 ∷ 0 ∷ 2 ∷ [])
        ≡ err (unknown_version 2))
    × (open_sealed toy_cipher [] [] (b'S' ∷ b'G' ∷ b'X' ∷ b'1' ∷ 1 ∷ 1 ∷ 0 ∷ 1 ∷ nonce)
        ≡ err auth_failed)
unfolding open_sealed decode toy_cipher kind_from_u8 scheme_from_u16 from_le read new_reader rest
open_refused = (refl, refl, refl)

nonce_sized : (n : Bytes) → some nonce ≡ some n → length n ≡ nonce_len
nonce_sized n h = let e : nonce ≡ n = cc in rw (← e)

open_sealed-seal_example : open_sealed toy_cipher (75 ∷ []) [] sealed_ok ≡ ok (4 ∷ 2 ∷ [])
open_sealed-seal_example =
    open_sealed-seal toy_cipher (some nonce) aes256_gcm (75 ∷ []) [] (4 ∷ 2 ∷ []) sealed_ok
      nonce_sized seal_run

open_sealed-ok_example :
    (scheme : AeadScheme) × (n : Bytes) × (sealed : Bytes) × (sealed_ok
      ≡ encode (sealed_envelope toy_cipher scheme n sealed))
    × (length n ≡ nonce_len)
    × (toy_cipher.open_in_place scheme (75 ∷ []) n [] sealed ≡ some (4 ∷ 2 ∷ []))
open_sealed-ok_example =
    open_sealed-ok toy_cipher (75 ∷ []) [] sealed_ok (4 ∷ 2 ∷ []) (omega arith) open_run

abbrev dek : Bytes
dek = codes "0123456789abcdef0123456789abcdef"

abbrev wrapped_dek : Bytes
wrapped_dek = b'S' ∷ b'G' ∷ b'X' ∷ b'1' ∷ 1 ∷ 1 ∷ 0 ∷ 1 ∷ (nonce ++ (75 ∷ dek))

wrap_run : wrap_key toy_cipher (some nonce) aes256_gcm (75 ∷ []) dek ≡ ok wrapped_dek
unfolding wrap_key seal encode toy_cipher kind_byte le_bytes scheme_u16
wrap_run = refl

unwrap_key-wrap_key-sample : unwrap_key toy_cipher (75 ∷ []) wrapped_dek ≡ ok dek
unwrap_key-wrap_key-sample =
    unwrap_key-wrap_key toy_cipher (some nonce) aes256_gcm (75 ∷ []) dek wrapped_dek nonce_sized
      refl wrap_run
