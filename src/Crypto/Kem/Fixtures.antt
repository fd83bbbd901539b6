-- ===== src/Crypto/Kem/Fixtures.antt =====
-- Stand-ins for the libraries of kem.rs: an agreement that adds, a hash that adds, a cipher that
-- leaves the text as it is.
use secgit.Prelude.{
  ℕ, zero, suc, ◌+◌, ◌^◌, ◌<◌, ◌≡◌, refl, ap, sym, ◌∙◌, Option, none, some, [], ◌∷◌, Bytes, length,
  arith, leb, if◌then◌else◌, Bool-cases, inl, inr,
}
use secgit.Crypto.Aead.{Cipher}
use secgit.Crypto.Kem.{KemLibrary}

unfoldable pub repeat : ℕ → ℕ → Bytes
repeat zero b = []
repeat (suc n) b = b ∷ repeat n b

pub length-repeat : (n b : ℕ) → length (repeat n b) ≡ n
unfolding repeat
length-repeat zero b = refl
length-repeat (suc n) b = ap suc (length-repeat n b)

unfoldable pub sum : Bytes → ℕ
sum [] = 0
sum (b ∷ bs) = b + sum bs

-- Stand-ins: a public key repeats the secret's sum, agreement adds, the hash adds.
unfoldable pub toy_public : Bytes → Bytes
unfolding repeat sum
toy_public s = repeat 32 (sum s)

unfoldable pub first : Bytes → ℕ
first [] = 0
first (b ∷ bs) = b

unfoldable pub toy_agree : Bytes → Bytes → Bytes
unfolding first sum
toy_agree s p = (sum s + first p) ∷ []

pub toy_agree-toy_public : (a b : Bytes) → toy_agree a (toy_public b) ≡ toy_agree b (toy_public a)
unfolding toy_agree toy_public first repeat
toy_agree-toy_public a b = ap (λ n. n ∷ []) (omega arith)

unfoldable pub toy_hmac : Bytes → Bytes → Bytes
unfolding repeat sum
toy_hmac k m = repeat 48 (sum k + sum m)

unfoldable pub toy_cipher : Cipher
toy_cipher = record {
  seal_in_place = λ s key nonce aad plain. some plain;
  open_in_place = λ s key nonce aad sealed. some sealed;
  open-seal = λ s key nonce aad plain sealed e. sym e;
}

abbrev pub capsule : Bytes → Option (Bytes × Bytes)
capsule ek = some (7 ∷ [], ek)

unfoldable pub second : Option (Bytes × Bytes) → Option Bytes
second none = none
second (some (x, y)) = some y

key_kept :
    (ek text : Bytes)
    → (if leb 4294967296 (length ek) then none else some ek) ≡ some text
    → some ek ≡ some text
key_kept ek text e = ground arith

pub key_fits :
    (ek text : Bytes)
    → (if leb 4294967296 (length ek) then none else some ek) ≡ some text
    → length text < 2 ^ 32
key_fits ek text e = elim (Bool-cases (leb 4294967296 (length ek))) [
  | inl long ↦ absurd (cc (rw long at e))
  | inr short ↦ let same : ek ≡ text = cc (rw short at e) in rw (← same) (ground arith)
]

pub ct_fits : (ek ct ss : Bytes) → capsule ek ≡ some (ct, ss) → length ct < 2 ^ 32
ct_fits ek ct ss e = let same : 7 ∷ [] ≡ ct = cc in rw (← same) (omega arith)

pub decapsulates :
    (dk ek text ek' ct ss : Bytes)
    → some dk ≡ some ek
    → (if leb 4294967296 (length ek) then none else some ek) ≡ some text
    → some text ≡ some ek'
    → capsule ek' ≡ some (ct, ss)
    → some dk ≡ some ss
unfolding second
decapsulates dk ek text ek' ct ss a b c d = a ∙ key_kept ek text b ∙ c ∙ ap (λ o. second o) d

unfoldable pub toy_library : KemLibrary
unfolding toy_public toy_agree
toy_library = record {
  x_public = toy_public;
  diffie_hellman = toy_agree;
  encapsulation_key = λ dk. some dk;
  key_bytes = λ ek. if leb 4294967296 (length ek) then none else some ek;
  new_encapsulation_key = λ text. some text;
  encapsulate = capsule;
  decapsulate = λ dk ct. some dk;
  unbound_key = λ k. some k;
  agree = toy_agree-toy_public;
  x_long = λ a. length-repeat 32 (sum a);
  decapsulate-encapsulate =
      λ dk ek text ek' ct ss a b c d. decapsulates dk ek text ek' ct ss a b c d;
  ek_short = λ ek text e. key_fits ek text e;
  ct_short = λ ek ct ss e. ct_fits ek ct ss e;
}
