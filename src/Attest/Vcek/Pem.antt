-- ===== src/Attest/Vcek/Pem.antt =====
-- vcek.rs: reading a concatenation of PEM certificates.
pub mod Tests
use secgit.Prelude.{
  ℕ, ◌≡◌, refl, ap, ap₂, sym, ◌∙◌, String, Bool, true, false, not, ◌&&◌, ◌||◌, Option, none, some,
  List, [], ◌∷◌, ◌++◌, append_assoc, append-nil, Bytes, codes, length, str_eq, eq_iff, ◌==◌, ==_iff,
  if◌then◌else◌, Bool-cases, inl, inr, arith, All,
}
use secgit.Attest.{
  malformed, rejected, AttestError, Result, ok, err, ◌>>=◌, or_else, or_else-ok, chain_ok,
}
use secgit.Attest.Snp.{VcekKey, byte_at}
use secgit.Attest.Vcek.{
  Product, Certificate, CertificateLibrary, oid_rsassa_pss, issuer_matches_subject, ec_p384_vcek,
  parse_cert_pem, check_signature, rsa_pss_sha384_signed_by, check_issuer, verify_vcek,
}

starts_with : Bytes → Bytes → Bool
starts_with [] text = true
starts_with (x ∷ xs) [] = false
starts_with (x ∷ xs) (y ∷ ys) = x == y && starts_with xs ys

unfoldable pub contains : Bytes → Bytes → Bool
unfolding starts_with
contains [] needle = starts_with needle []
contains (x ∷ xs) needle = starts_with needle (x ∷ xs) || contains xs needle

unfoldable pub is_begin : Bytes → Bool
is_begin line = contains line (codes "BEGIN CERTIFICATE")

unfoldable pub is_end : Bytes → Bool
is_end line = contains line (codes "END CERTIFICATE")

not_empty : List Certificate → Result (List Certificate)
not_empty [] = err (malformed "no certificates in chain")
not_empty (c ∷ cs) = ok (c ∷ cs)

module _ (lib : CertificateLibrary) where
  -- What the loop has gathered: the certificates read, and the text of the one that it is within.
  read_lines : List Bytes → Bool → Bytes → List Certificate → Result (List Certificate)
  read_lines [] in_cert cur out = ok out
  read_lines (line ∷ rest) in_cert cur out =
      let within = in_cert || is_begin line in
      let start = if is_begin line then [] else cur in
      let text = if within then (start ++ line) ++ (10 ∷ []) else start in
      let skipped = read_lines rest within text out in
      let pushed = (λ (cert : Certificate). read_lines rest false text (out ++ cert ∷ [])) in
      if is_end line then (do cert ← parse_cert_pem lib text; pushed cert) else skipped

  unfoldable pub parse_cert_chain_pem : Bytes → Result (List Certificate)
  unfolding read_lines not_empty
  parse_cert_chain_pem pem = do out ← read_lines (lib.lines pem) false [] []; not_empty out

  -- The text that the loop gathers from a certificate's lines.
  pub gathered : Bytes → List Bytes → Bytes
  gathered cur [] = cur
  gathered cur (line ∷ rest) = gathered ((cur ++ line) ++ (10 ∷ [])) rest

  -- A certificate in the file: a line that begins it, lines that are neither, and one that ends it.
  pub record Block : Type 0 where
    pub first : Bytes
    pub body : List Bytes
    pub last : Bytes
    pub cert : Certificate

  abbrev Inner : Bytes → Type 0
  Inner line = (is_begin line ≡ false) × (is_end line ≡ false)

  pub record IsBlock (b : Block) : Type 0 where
    pub begins : is_begin b.first ≡ true
    pub not_yet : is_end b.first ≡ false
    pub inner : All Inner b.body
    pub last_plain : is_begin b.last ≡ false
    pub ends : is_end b.last ≡ true
    pub parses : lib.from_pem (gathered [] (b.first ∷ (b.body ++ b.last ∷ []))) ≡ some b.cert

  pub block_lines : List Block → List Bytes
  block_lines [] = []
  block_lines (b ∷ bs) = b.first ∷ (b.body ++ b.last ∷ block_lines bs)

  pub certs : List Block → List Certificate
  certs [] = []
  certs (b ∷ bs) = b.cert ∷ certs bs

  read_body :
      (body : List Bytes) (last : Bytes) (rest : List Bytes) (cur : Bytes) (out : List Certificate)
      (cert : Certificate)
      → All Inner body
      → is_begin last ≡ false
      → is_end last ≡ true
      → lib.from_pem (gathered cur (body ++ last ∷ [])) ≡ some cert
      → read_lines (body ++ last ∷ rest) true cur out
        ≡ read_lines rest false (gathered cur (body ++ last ∷ [])) (out ++ cert ∷ [])
  unfolding read_lines gathered parse_cert_pem
  read_body [] last rest cur out cert inner plain ends parses = rw (plain, ends, parses) refl
  read_body (line ∷ body) last rest cur out cert ((a, b), inner) plain ends parses =
      rw (a, b)
        (read_body body last rest ((cur ++ line) ++ (10 ∷ [])) out cert inner plain ends parses)

  read_blocks :
      (bs : List Block) (cur : Bytes) (out : List Certificate)
      → All IsBlock bs
      → read_lines (block_lines bs) false cur out ≡ ok (out ++ certs bs)
  unfolding block_lines certs read_lines gathered
  read_blocks [] cur out h = ap ok (sym (append-nil out))
  read_blocks (b ∷ bs) cur out (h, hs) =
      let start = (([] ++ b.first) ++ (10 ∷ [])) in
      let body =
        read_body b.body b.last (block_lines bs) start out b.cert h.inner h.last_plain h.ends
          h.parses in
      rw
        (
          h.begins,
          h.not_yet,
          body,
          read_blocks bs (gathered start (b.body ++ b.last ∷ [])) (out ++ b.cert ∷ []) hs,
        )
        (ap ok (append_assoc out (b.cert ∷ []) (certs bs)))

  -- A file of one or more certificates, each between its own two marker lines and readable, is
  -- parsed into those certificates, in their order.
  pub parse_cert_chain_pem-blocks :
      (b : Block) (bs : List Block) (pem : Bytes)
      → All IsBlock (b ∷ bs)
      → lib.lines pem ≡ block_lines (b ∷ bs)
      → parse_cert_chain_pem pem ≡ ok (certs (b ∷ bs))
  unfolding parse_cert_chain_pem not_empty certs
  parse_cert_chain_pem-blocks b bs pem h e = rw (e, read_blocks (b ∷ bs) [] [] h) refl
