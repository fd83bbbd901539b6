-- ===== src/Crypto/Framing.antt =====
-- crates/secgit-crypto/src/envelope.rs: `Writer` and `Reader`, the length-prefixed framing.
-- A method returns its result and the new reader; a slice is `take` after `drop`.
use secgit.Prelude.{
  ℕ, ◌+◌, ◌%◌, ◌^◌, ◌≤◌, ◌<◌, ◌≡◌, refl, ap, ◌∙◌, false, [], ◌∷◌, ◌++◌, Bytes, arith, length,
  length-append, length-take, length-drop, take-append-drop, Bool-cases, inl, inr, sym, take, drop,
  append_assoc, ltb, le→ltb, if◌then◌else◌,
}
use secgit.Prelude.Words.{le_bytes, from_le, from_le-le_bytes, length-le_bytes}
use secgit.Prelude.{drop_add}
use secgit.Crypto.Error.{malformed, Result, ok, err, ◌>>=◌, chain_ok}

pub record Writer : Type 0 where
  pub buf : Bytes

unfoldable pub new_writer : Writer
new_writer = record { buf = [] }

unfoldable pub put_bytes : Writer → Bytes → Writer
put_bytes w b = record { buf = w.buf ++ b }

unfoldable pub put_u8 : Writer → ℕ → Writer
put_u8 w v = record { buf = w.buf ++ v ∷ [] }

-- `b.len() as u32` keeps the low 32 bits.
unfoldable pub put_lp32 : Writer → Bytes → Writer
put_lp32 w b = record { buf = (w.buf ++ le_bytes 4 (length b % 2 ^ 32)) ++ b }

pub record Reader : Type 0 where
  pub buf : Bytes
  pub pos : ℕ

unfoldable pub new_reader : Bytes → Reader
new_reader buf = record { buf = buf; pos = 0 }

unfoldable pub read : Reader → ℕ → Result (Bytes × Reader)
read r n =
    if ltb (length r.buf) (r.pos + n)
    then err (malformed "truncated body")
    else ok (take n (drop r.pos r.buf), record r { pos = r.pos + n })

unfoldable pub read_lp32 : Reader → Result (Bytes × Reader)
read_lp32 r = do (lb, r') ← read r 4; read r' (from_le lb)

unfoldable pub rest : Reader → Bytes × Reader
rest r = (drop r.pos r.buf, record r { pos = length r.buf })

pub drop_prefix : (a b : Bytes) → drop (length a) (a ++ b) ≡ b
drop_prefix [] b = refl
drop_prefix (x ∷ a) b = drop_prefix a b

pub take_prefix : (a b : Bytes) → take (length a) (a ++ b) ≡ a
take_prefix [] b = refl
take_prefix (x ∷ a) b = ap (λ t. x ∷ t) (take_prefix a b)

-- A reader that stands before a known text.
abbrev at : Bytes → Bytes → Reader
at before after = record { buf = before ++ after; pos = length before }

pub read_prefix :
    (before chunk after : Bytes)
    → read (at before (chunk ++ after)) (length chunk) ≡ ok (chunk, at (before ++ chunk) after)
unfolding read
read_prefix before chunk after =
    let long : ltb (length (before ++ (chunk ++ after))) (length before + length chunk) ≡ false =
      le→ltb _ _
        (omega (arith, length-append before (chunk ++ after), length-append chunk after)) in
    rw (
      long,
      drop_prefix before (chunk ++ after),
      take_prefix chunk after,
      append_assoc before chunk after,
      length-append before chunk,
    )

-- The text of a length-prefixed field.
abbrev pub lp32_text : Bytes → Bytes
lp32_text b = le_bytes 4 (length b % 2 ^ 32) ++ b

pub read_lp32_at :
    (before b after : Bytes)
    → length b < 2 ^ 32
    → read_lp32 (at before (lp32_text b ++ after)) ≡ ok (b, at (before ++ lp32_text b) after)
unfolding read_lp32
read_lp32_at before b after h =
    let head = le_bytes 4 (length b % 2 ^ 32) in
    let size : from_le head ≡ length b =
      from_le-le_bytes 4 (length b % 2 ^ 32) (omega arith) ∙ omega arith in
    let four : length head ≡ 4 = length-le_bytes 4 (length b % 2 ^ 32) in
    let first = rw four at (read_prefix before head (b ++ after)) in
    rw (append_assoc head b after, first, size, ← append_assoc before head b)
      (read_prefix (before ++ head) b after)

-- A reader over a writer's text with more behind it, at the place where another writer ended.
abbrev pub reading : Writer → Writer → Bytes → Reader
reading start w tail = record { buf = w.buf ++ tail; pos = length start.buf }

-- A field of less than 2 ^ 32 bytes that a writer appends is read back whole, from where it was
-- written, whatever stands before and behind it, and the reader is left at the field's end.
pub read_lp32-put_lp32 :
    (w : Writer) (b tail : Bytes)
    → length b < 2 ^ 32
    → read_lp32 (reading w (put_lp32 w b) tail) ≡ ok (b, reading (put_lp32 w b) (put_lp32 w b) tail)
unfolding read_lp32 put_lp32
read_lp32-put_lp32 w b tail h =
    let head = le_bytes 4 (length b % 2 ^ 32) in
    let size : from_le head ≡ length b =
      from_le-le_bytes 4 (length b % 2 ^ 32) (omega arith) ∙ omega arith in
    let four : length head ≡ 4 = length-le_bytes 4 (length b % 2 ^ 32) in
    let first = rw four at (read_prefix w.buf head (b ++ tail)) in
    let whole : ((w.buf ++ head) ++ b) ++ tail ≡ w.buf ++ (head ++ (b ++ tail)) =
      append_assoc (w.buf ++ head) b tail ∙ append_assoc w.buf head (b ++ tail) in
    let after : Bytes → Result (Bytes × Reader) =
      λ t. ok (b, record { buf = t; pos = length ((w.buf ++ head) ++ b) }) in
    rw (whole, first, size) (read_prefix (w.buf ++ head) b tail ∙ ap after whole)

-- A read that succeeds gives as many bytes as were asked for, and leaves those behind them.
read_splits :
    (r : Reader) (n : ℕ) (chunk : Bytes) (r' : Reader)
    → read r n ≡ ok (chunk, r')
    → (length chunk ≡ n) × (drop r.pos r.buf ≡ chunk ++ drop r'.pos r'.buf)
unfolding read
read_splits r n chunk r' h = elim (Bool-cases (ltb (length r.buf) (r.pos + n))) [
  | inl short ↦ absurd (cc (rw short at h))
  | inr long ↦
      let same = rw long at h in
      let fits : r.pos + n ≤ length r.buf = ground (arith, long) in
      let taken : take n (drop r.pos r.buf) ≡ chunk = cc same in
      let left : record r { pos = r.pos + n } ≡ r' = cc same in
      rw (← taken, ← left)
        (
          length-take n (drop r.pos r.buf) ∙ omega (arith, fits, length-drop r.pos r.buf),
          rw (drop_add r.pos n r.buf) (sym (take-append-drop n (drop r.pos r.buf))),
        )
]

-- A field that is read stands where the reader stood, behind four bytes that are its length.
pub read_lp32_splits :
    (r : Reader) (b : Bytes) (r' : Reader)
    → read_lp32 r ≡ ok (b, r')
    → (lb : Bytes) × (length lb ≡ 4)
      × (from_le lb ≡ length b)
      × (drop r.pos r.buf ≡ lb ++ (b ++ drop r'.pos r'.buf))
unfolding read_lp32
read_lp32_splits r b r' h =
    let ((lb, r1), first, second) = chain_ok (read r 4) _ h in
    let (four, before) = read_splits r 4 lb r1 first in
    let (size, after) = read_splits r1 (from_le lb) b r' second in
    (lb, four, sym size, before ∙ ap (λ t. lb ++ t) after)

-- A read from the start that succeeds gives the first bytes, and leaves the others.
pub read-ok :
    (buf : Bytes) (n : ℕ) (chunk : Bytes) (r : Reader)
    → read (new_reader buf) n ≡ ok (chunk, r)
    → (n ≤ length buf) × (chunk ≡ take n buf) × ((rest r).0 ≡ drop n buf)
unfolding read new_reader rest
read-ok buf n chunk r h = ground arith
