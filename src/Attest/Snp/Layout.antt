-- ===== src/Attest/Snp/Layout.antt =====
-- snp.rs: the fields of a report written out byte by byte are read back, and what verification
-- promises of them.
use secgit.Prelude.{
  ℕ, zero, suc, ◌+◌, ◌^◌, ◌<◌, ◌≤◌, ◌≡◌, refl, ap, ap₂, sym, ◌∙◌, [], ◌∷◌, ◌++◌, Bytes, length,
  length-append, length-take, length-drop, take, drop, le→ltb, arith, append-nil,
}
use mathlib.Core.List.{reverse, reverse-append}
use secgit.Prelude.{drop_add}
use secgit.Prelude.Words.{le_bytes, from_le-le_bytes, length-le_bytes}
use secgit.Crypto.Framing.{drop_prefix, take_prefix}
use secgit.Attest.{ok}
use secgit.Attest.Snp.{
  report_min_len, slice, parse_report, signature_be, le_field_to_be, backwards, byte_at,
}

take-byte_at :
    (n : ℕ) (xs : Bytes) → n < length xs → take (suc n) xs ≡ take n xs ++ byte_at xs n ∷ []
take-byte_at n [] h = absurd (omega (arith, h))
take-byte_at zero (x ∷ xs) h = refl
take-byte_at (suc n) (x ∷ xs) h = ap (λ t. x ∷ t) (take-byte_at n xs (omega (arith, h)))

backwards-reverse : (n : ℕ) (xs : Bytes) → n ≤ length xs → backwards n xs ≡ reverse (take n xs)
unfolding backwards
backwards-reverse zero xs h = refl
backwards-reverse (suc n) xs h =
    ap (λ t. byte_at xs n ∷ t) (backwards-reverse n xs (omega (arith, h)))
    ∙ sym (
        ap reverse (take-byte_at n xs (omega (arith, h)))
        ∙ reverse-append (take n xs) (byte_at xs n ∷ []))

-- Behind a field of a text stands the next one.
next_field :
    (text : Bytes) (off n : ℕ) (a b : Bytes)
    → drop off text ≡ a ++ b
    → length a ≡ n
    → drop (off + n) text ≡ b
next_field text off n a b e h = drop_add off n text ∙ rw (e, ← h) (drop_prefix a b)

field_here :
    (text : Bytes) (off n : ℕ) (a b : Bytes)
    → drop off text ≡ a ++ b
    → length a ≡ n
    → slice off n text ≡ a
field_here text off n a b e h = rw (e, ← h) (take_prefix a b)

-- The fields of a report, with what stands between them.
pub record Fields : Type 0 where
  pub version : ℕ
  pub vmpl : ℕ
  pub report_data : Bytes
  pub measurement : Bytes
  pub host_data : Bytes
  pub reported_tcb : ℕ
  pub chip_id : Bytes
  pub gap1 : Bytes
  pub gap2 : Bytes
  pub gap3 : Bytes
  pub gap4 : Bytes
  pub gap5 : Bytes
  pub sig : Bytes

-- The sizes that the ABI gives to the fields.
pub record IsSized (f : Fields) : Type 0 where
  pub version : f.version < 256 ^ 4
  pub vmpl : f.vmpl < 256 ^ 4
  pub report_data : length f.report_data ≡ 64
  pub measurement : length f.measurement ≡ 48
  pub host_data : length f.host_data ≡ 32
  pub reported_tcb : f.reported_tcb < 256 ^ 8
  pub chip_id : length f.chip_id ≡ 64
  pub gap1 : length f.gap1 ≡ 44
  pub gap2 : length f.gap2 ≡ 28
  pub gap3 : length f.gap3 ≡ 160
  pub gap4 : length f.gap4 ≡ 24
  pub gap5 : length f.gap5 ≡ 192
  pub sig : length f.sig ≡ 512

-- A report as the ABI lays it out, from the end.
tcb_on : Fields → Bytes
tcb_on f = le_bytes 8 f.reported_tcb ++ (f.gap4 ++ (f.chip_id ++ (f.gap5 ++ f.sig)))

measurement_on : Fields → Bytes
measurement_on f = f.measurement ++ (f.host_data ++ (f.gap3 ++ tcb_on f))

after_data : Fields → Bytes
after_data f = f.report_data ++ measurement_on f

pub report_text : Fields → Bytes
report_text f = le_bytes 4 f.version ++ (f.gap1 ++ (le_bytes 4 f.vmpl ++ (f.gap2 ++ after_data f)))

module _ (f : Fields) (s : IsSized f) where
  at4 : drop 4 (report_text f) ≡ f.gap1 ++ (le_bytes 4 f.vmpl ++ (f.gap2 ++ after_data f))
  unfolding report_text
  at4 = next_field (report_text f) 0 4 (le_bytes 4 f.version) _ refl (length-le_bytes 4 f.version)

  at48 : drop 48 (report_text f) ≡ le_bytes 4 f.vmpl ++ (f.gap2 ++ after_data f)
  at48 = next_field (report_text f) 4 44 f.gap1 _ at4 s.gap1

  at80 : drop 80 (report_text f) ≡ after_data f
  at80 =
      next_field (report_text f) 52 28 f.gap2 (after_data f)
        (next_field (report_text f) 48 4 (le_bytes 4 f.vmpl) _ at48 (length-le_bytes 4 f.vmpl))
        s.gap2

  at144 : drop 144 (report_text f) ≡ measurement_on f
  unfolding after_data
  at144 = next_field (report_text f) 80 64 f.report_data (measurement_on f) at80 s.report_data

  at192 : drop 192 (report_text f) ≡ f.host_data ++ (f.gap3 ++ tcb_on f)
  unfolding measurement_on
  at192 = next_field (report_text f) 144 48 f.measurement _ at144 s.measurement

  at384 : drop 384 (report_text f) ≡ tcb_on f
  at384 =
      next_field (report_text f) 224 160 f.gap3 (tcb_on f)
        (next_field (report_text f) 192 32 f.host_data _ at192 s.host_data) s.gap3

  at416 : drop 416 (report_text f) ≡ f.chip_id ++ (f.gap5 ++ f.sig)
  unfolding tcb_on
  at416 =
      next_field (report_text f) 392 24 f.gap4 _
        (next_field (report_text f) 384 8 (le_bytes 8 f.reported_tcb) _ at384
          (length-le_bytes 8 f.reported_tcb))
        s.gap4

  at672 : drop 672 (report_text f) ≡ f.sig ++ []
  at672 =
      next_field (report_text f) 480 192 f.gap5 f.sig
        (next_field (report_text f) 416 64 f.chip_id _ at416 s.chip_id) s.gap5
      ∙ sym (append-nil f.sig)

  long : report_min_len ≤ length (report_text f)
  long =
      let behind : length (drop 672 (report_text f)) ≡ length (f.sig ++ []) = ap length at672 in
      omega (arith, behind, length-drop 672 (report_text f), length-append f.sig [], s.sig)

  start :
      drop 0 (report_text f)
      ≡ le_bytes 4 f.version ++ (f.gap1 ++ (le_bytes 4 f.vmpl ++ (f.gap2 ++ after_data f)))
  unfolding report_text
  start = refl

  bound : drop 80 (report_text f) ≡ f.report_data ++ measurement_on f
  unfolding after_data
  bound = at80

  measured : drop 144 (report_text f) ≡ f.measurement ++ (f.host_data ++ (f.gap3 ++ tcb_on f))
  unfolding measurement_on
  measured = at144

  tcb :
      drop 384 (report_text f)
      ≡ le_bytes 8 f.reported_tcb ++ (f.gap4 ++ (f.chip_id ++ (f.gap5 ++ f.sig)))
  unfolding tcb_on
  tcb = at384

  -- A half of the signature's field is long enough for the number in it.
  signature_be_reversed :
      signature_be f.sig
      ≡ reverse (take 48 (take 72 f.sig)) ++ reverse (take 48 (take 72 (drop 72 f.sig)))
  unfolding signature_be le_field_to_be
  signature_be_reversed =
      ap₂ (λ x y. x ++ y)
        (backwards-reverse 48 (take 72 f.sig) (omega (arith, length-take 72 f.sig, s.sig)))
        (backwards-reverse 48 (take 72 (drop 72 f.sig))
          (omega (arith, length-take 72 (drop 72 f.sig), length-drop 72 f.sig, s.sig)))

  -- A report written with every field at its place and of its size is parsed into those fields: the
  -- two numbers that the policy reads, the report data, the measurement, the chip's number, and a
  -- signature that is the first 48 bytes of each half of its field, each reversed.
  pub parse_report-report_text :
      parse_report (report_text f)
      ≡ ok (record {
        version = f.version;
        vmpl = f.vmpl;
        report_data = f.report_data;
        measurement = f.measurement;
        host_data = f.host_data;
        reported_tcb = f.reported_tcb;
        chip_id = f.chip_id;
        signed_data = take 672 (report_text f);
        signature_be =
            reverse (take 48 (take 72 f.sig)) ++ reverse (take 48 (take 72 (drop 72 f.sig)));
      })
  unfolding parse_report
  parse_report-report_text =
      let text = report_text f in
      rw
        (
          le→ltb (length text) report_min_len long,
          field_here text 0 4 (le_bytes 4 f.version) _ start (length-le_bytes 4 f.version),
          from_le-le_bytes 4 f.version s.version,
          field_here text 48 4 (le_bytes 4 f.vmpl) _ at48 (length-le_bytes 4 f.vmpl),
          from_le-le_bytes 4 f.vmpl s.vmpl,
          field_here text 80 64 f.report_data (measurement_on f) bound s.report_data,
          field_here text 144 48 f.measurement _ measured s.measurement,
          field_here text 192 32 f.host_data _ at192 s.host_data,
          field_here text 384 8 (le_bytes 8 f.reported_tcb) _ tcb
              (length-le_bytes 8 f.reported_tcb),
          from_le-le_bytes 8 f.reported_tcb s.reported_tcb,
          field_here text 416 64 f.chip_id _ at416 s.chip_id,
          field_here text 672 512 f.sig [] at672 s.sig,
          signature_be_reversed,
        )
        refl
