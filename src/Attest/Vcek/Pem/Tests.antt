-- ===== src/Attest/Vcek/Pem/Tests.antt =====
-- Runs of the reader of PEM files, and its theorem at a concrete input.
use secgit.Prelude.{◌≡◌, refl, [], ◌∷◌, codes}
use secgit.Attest.{ok}
use secgit.Attest.Vcek.Pem.{
  parse_cert_chain_pem, Block, IsBlock, block_lines, certs, parse_cert_chain_pem-blocks, gathered,
  is_begin, is_end, contains, starts_with,
}
use secgit.Attest.Vcek.Fixtures.{cert, toy_library}

abbrev block : Block toy_library
block = record {
  first = codes "BEGIN CERTIFICATE";
  body = codes "AA" ∷ [];
  last = codes "END CERTIFICATE";
  cert = cert;
}

block-IsBlock : IsBlock toy_library block
unfolding is_begin is_end contains starts_with gathered
block-IsBlock = record {
  begins = refl;
  not_yet = refl;
  inner = ((refl, refl), tt);
  last_plain = refl;
  ends = refl;
  parses = refl;
}

parse_cert_chain_pem-sample :
    parse_cert_chain_pem toy_library [] ≡ ok (certs toy_library (block ∷ []))
unfolding block_lines
parse_cert_chain_pem-sample =
    parse_cert_chain_pem-blocks toy_library block [] [] (block-IsBlock, tt) as_lines
  where
    as_lines : toy_library.lines [] ≡ block_lines toy_library (block ∷ [])
    as_lines = refl
