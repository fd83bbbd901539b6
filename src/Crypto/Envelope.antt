-- ===== src/Crypto/Envelope.antt =====
-- crates/secgit-crypto/src/envelope.rs: `MAGIC(4) | kind(1) | scheme(2 LE) | version(1) | body`.
use secgit.Prelude.{
  ℕ, ◌+◌, ◌^◌, ◌<◌, ◌≡◌, sym, ◌∙◌, false, not, [], ◌∷◌, ◌++◌, Bytes, arith, All, length, take, drop,
  bytes_eq, bytes_eq_iff, ltb, if◌then◌else◌, Bool-cases, All-drop, take-append-drop, inl, inr, ap₂,
}
use secgit.Crypto.Error.{
  malformed, Result, ok, err, ◌>>=◌, Kind, kind_byte, kind_from_u8, kind_from_u8-kind_byte,
  kind_byte-kind_from_u8, chain_ok,
}
use secgit.Prelude.Words.{le_bytes, from_le, IsByte, from_le-le_bytes, le_bytes-from_le}

-- b"SGX1"
abbrev pub magic : Bytes
magic = b'S' ∷ b'G' ∷ b'X' ∷ b'1' ∷ []

abbrev pub header_len : ℕ
header_len = 4 + 1 + 2 + 1

pub record Envelope : Type 0 where
  pub kind : Kind
  pub scheme : ℕ
  pub version : ℕ
  pub body : Bytes

unfoldable pub encode : Envelope → Bytes
encode e = magic ++ kind_byte e.kind ∷ (le_bytes 2 e.scheme ++ e.version ∷ e.body)

-- What follows the check of the length and of the magic: bytes 4 to 7, and the rest.
fields : Bytes → Result Envelope
fields (k ∷ s0 ∷ s1 ∷ v ∷ body) = do
  kind ← kind_from_u8 k
  ok (record { kind = kind; scheme = from_le (s0 ∷ s1 ∷ []); version = v; body = body })
fields _ = err (malformed "short envelope")

unfoldable pub decode : Bytes → Result Envelope
unfolding fields bytes_eq
decode bytes =
    if ltb (length bytes) header_len
    then err (malformed "short envelope")
    else if not (bytes_eq (take 4 bytes) magic)
    then err (malformed "bad magic")
    else fields (drop 4 bytes)

-- An envelope whose scheme fits 16 bits reads back as it was written.
pub decode-encode : (e : Envelope) → e.scheme < 2 ^ 16 → decode (encode e) ≡ ok e
unfolding encode decode le_bytes
decode-encode e h =
    let scheme : from_le (le_bytes 2 e.scheme) ≡ e.scheme =
      from_le-le_bytes 2 e.scheme (omega arith) in
    let long : ltb (length (encode e)) header_len ≡ false = ground arith in
    rw (long, kind_from_u8-kind_byte e.kind, scheme)

fields-inv :
    (bytes : Bytes) (e : Envelope)
    → fields bytes ≡ ok e
    → All IsByte bytes
    → kind_byte e.kind ∷ (le_bytes 2 e.scheme ++ e.version ∷ e.body) ≡ bytes
unfolding fields
fields-inv [] e h b = cc
fields-inv (k ∷ []) e h b = cc
fields-inv (k ∷ s0 ∷ []) e h b = cc
fields-inv (k ∷ s0 ∷ s1 ∷ []) e h b = cc
fields-inv (k ∷ s0 ∷ s1 ∷ v ∷ body) e h b =
    let scheme = le_bytes-from_le (s0 ∷ s1 ∷ []) (b.1.0, (b.1.1.0, tt)) in
    let (kind, found, made) = chain_ok (kind_from_u8 k) _ h in
    let same : record { kind = kind; scheme = from_le (s0 ∷ s1 ∷ []); version = v; body = body }
        ≡ e =
      cc in
    rw (← same, kind_byte-kind_from_u8 k kind found, scheme)

-- Bytes that decode are the encoding of what they decode to: no two texts stand for one envelope.
pub encode-decode :
    (bytes : Bytes) (e : Envelope) → All IsByte bytes → decode bytes ≡ ok e → encode e ≡ bytes
unfolding encode decode
encode-decode bytes e b h = elim (Bool-cases (bytes_eq (take 4 bytes) magic)) [
  | inr bad ↦ ground (arith, bad)
  | inl good ↦
      let start = (bytes_eq_iff (take 4 bytes) magic).0 good in
      let rest = fields-inv (drop 4 bytes) e (ground (arith, good)) (All-drop IsByte 4 bytes b) in
      ap₂ ◌++◌ (sym start) rest ∙ take-append-drop 4 bytes
]
