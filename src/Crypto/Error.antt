-- ===== src/Crypto/Error.antt =====
-- crates/secgit-crypto/src/error.rs and ids.rs: the errors, and the identifiers on every artifact.
use secgit.Prelude.{ℕ, String, ◌≡◌, refl, ◌==◌, if◌then◌else◌, arith}

pub data CryptoError : Type 0 where
  unknown_scheme unknown_version : ℕ → CryptoError
  malformed key : String → CryptoError
  auth_failed bad_signature backend : CryptoError

pub data Result {ℓ} (A : Type ℓ) : Type ℓ where
  ok : A → Result A
  err : CryptoError → Result A

infixl 5 ◌>>=◌
abbrev pub ◌>>=◌ {ℓ κ} : {A : Type ℓ} {B : Type κ} → Result A → (A → Result B) → Result B
ok value >>= next = next value
err e >>= next = err e

pub data Kind : Type 0 where
  aead wrapped_key signature : Kind

unfoldable pub kind_byte : Kind → ℕ
kind_byte aead = 1
kind_byte wrapped_key = 2
kind_byte signature = 3

unfoldable pub kind_from_u8 : ℕ → Result Kind
kind_from_u8 v =
    if v == 1
    then ok aead
    else if v == 2
    then ok wrapped_key
    else if v == 3
    then ok signature
    else err (malformed "unknown artifact kind")

pub data AeadScheme : Type 0 where
  aes256_gcm chacha20_poly1305 : AeadScheme

unfoldable pub scheme_u16 : AeadScheme → ℕ
scheme_u16 aes256_gcm = 1
scheme_u16 chacha20_poly1305 = 2

unfoldable pub scheme_from_u16 : ℕ → Result AeadScheme
scheme_from_u16 v =
    if v == 1
    then ok aes256_gcm
    else if v == 2
    then ok chacha20_poly1305
    else err (unknown_scheme v)

abbrev pub default_aead : AeadScheme
default_aead = aes256_gcm

pub data KemScheme : Type 0 where
  x25519_ml_kem768 : KemScheme

unfoldable pub kem_u16 : KemScheme → ℕ
kem_u16 x25519_ml_kem768 = 1

unfoldable pub kem_from_u16 : ℕ → Result KemScheme
kem_from_u16 v = if v == 1 then ok x25519_ml_kem768 else err (unknown_scheme v)

pub data SigScheme : Type 0 where
  ed25519_ml_dsa65 ed25519_ml_dsa87 : SigScheme

unfoldable pub sig_u16 : SigScheme → ℕ
sig_u16 ed25519_ml_dsa65 = 1
sig_u16 ed25519_ml_dsa87 = 2

unfoldable pub sig_from_u16 : ℕ → Result SigScheme
sig_from_u16 v =
    if v == 1
    then ok ed25519_ml_dsa65
    else if v == 2
    then ok ed25519_ml_dsa87
    else err (unknown_scheme v)

pub kind_from_u8-kind_byte : (k : Kind) → kind_from_u8 (kind_byte k) ≡ ok k
unfolding kind_from_u8 kind_byte
kind_from_u8-kind_byte aead = refl
kind_from_u8-kind_byte wrapped_key = refl
kind_from_u8-kind_byte signature = refl

pub kind_byte-kind_from_u8 : (v : ℕ) (k : Kind) → kind_from_u8 v ≡ ok k → kind_byte k ≡ v
unfolding kind_from_u8 kind_byte
kind_byte-kind_from_u8 v k h = ground arith

pub scheme_from_u16-scheme_u16 : (s : AeadScheme) → scheme_from_u16 (scheme_u16 s) ≡ ok s
unfolding scheme_from_u16 scheme_u16
scheme_from_u16-scheme_u16 aes256_gcm = refl
scheme_from_u16-scheme_u16 chacha20_poly1305 = refl

pub scheme_u16-scheme_from_u16 :
    (v : ℕ) (s : AeadScheme) → scheme_from_u16 v ≡ ok s → scheme_u16 s ≡ v
unfolding scheme_from_u16 scheme_u16
scheme_u16-scheme_from_u16 v s h = ground arith

pub sig_from_u16-sig_u16 : (s : SigScheme) → sig_from_u16 (sig_u16 s) ≡ ok s
unfolding sig_from_u16 sig_u16
sig_from_u16-sig_u16 ed25519_ml_dsa65 = refl
sig_from_u16-sig_u16 ed25519_ml_dsa87 = refl

-- A chain that succeeded had a first step that succeeded.
pub chain_ok {ℓ κ} :
    {A : Type ℓ} {B : Type κ} (first : Result A) (next : A → Result B) {last : B}
    → (first >>= next) ≡ ok last
    → (x : A) × (first ≡ ok x) × (next x ≡ ok last)
chain_ok (ok x) next h = (x, refl, h)
chain_ok (err e) next h = cc

pub ok_same {ℓ} : {A : Type ℓ} {x y : A} → ok x ≡ ok y → x ≡ y
ok_same h = cc
