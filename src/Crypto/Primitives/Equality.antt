-- ===== src/Crypto/Primitives/Equality.antt =====
-- primitives.rs, `ct_eq`: no bit differs exactly where the texts are equal.
use Prim.Native.Nat.{bit_or, bit_xor, bit_or-bitwise, bit_xor-bitwise, digits, differ}
use secgit.Prelude.{
  ℕ, zero, suc, ◌/◌, ◌%◌, ◌≤◌, ◌<◌, ◌≡◌, refl, ap, ap₂, sym, ◌↔◌, true, [], ◌∷◌, Bytes, max, arith,
  length, ◌==◌, ==_iff, Bool-cases, inl, inr,
}
use secgit.Prelude.Bits.{bit_xor_step}
use secgit.Crypto.Primitives.{gather, ct_eq}

digits_zero : (f a b : ℕ) → a ≤ f → digits (λ w. w) max f a b ≡ 0 → (a ≡ 0) × (b ≡ 0)
digits_zero zero a b h e = (omega arith, e)
digits_zero (suc f) zero b h e = (refl, e)
digits_zero (suc f) (suc a) b h e =
    let ih = digits_zero f (suc a / 2) (b / 2) (omega arith) (omega arith) in
    (omega (arith, ih.0, ih.1), omega (arith, ih.0, ih.1))

bit_or_zero : (a b : ℕ) → bit_or a b ≡ 0 → (a ≡ 0) × (b ≡ 0)
bit_or_zero a b e = digits_zero a a b (omega arith) (simp bit_or-bitwise at e)

differ_low : (x y : ℕ) → x < 2 → y < 2 → differ x y ≡ 0 → x ≡ y
differ_low zero y p q e = sym e
differ_low (suc x) zero p q e = e
differ_low (suc x) (suc y) p q e = ap suc (omega arith)

differ_same : (x : ℕ) → differ x x ≡ 0
differ_same zero = refl
differ_same (suc x) = differ_same x

bit_xor_same : (f a : ℕ) → a ≤ f → bit_xor a a ≡ 0
bit_xor_same f zero h = refl
bit_xor_same zero (suc a) h = absurd (omega arith)
bit_xor_same (suc f) (suc a) h = omega (
  arith,
  bit_xor_step (suc a) (suc a),
  bit_xor_same f (suc a / 2) (omega arith),
  differ_same (suc a % 2),
)

bit_xor_zero : (f a b : ℕ) → a ≤ f → bit_xor a b ≡ 0 → a ≡ b
bit_xor_zero f zero b h e = sym (simp bit_xor-bitwise at e)
bit_xor_zero zero (suc a) b h e = absurd (omega arith)
bit_xor_zero (suc f) (suc a) b h e =
    let step = bit_xor_step (suc a) b in
    let half = bit_xor_zero f (suc a / 2) (b / 2) (omega arith) (omega (arith, step)) in
    let low = differ_low (suc a % 2) (b % 2) (omega arith) (omega arith) (omega (arith, step)) in
    omega (arith, half, low)

gather_zero :
    (diff : ℕ) (xs ys : Bytes)
    → length xs ≡ length ys
    → gather diff xs ys ≡ 0
    → (diff ≡ 0) × (xs ≡ ys)
unfolding gather
gather_zero diff [] [] n e = (e, refl)
gather_zero diff [] (y ∷ ys) n e = absurd (omega arith)
gather_zero diff (x ∷ xs) [] n e = absurd (omega arith)
gather_zero diff (x ∷ xs) (y ∷ ys) n e =
    let (both, same) = gather_zero (bit_or diff (bit_xor x y)) xs ys (omega arith) e in
    let (none_before, equal) = bit_or_zero diff (bit_xor x y) both in
    (none_before, ap₂ (λ h t. h ∷ t) (bit_xor_zero x x y (omega arith) equal) same)

gather_same : (xs : Bytes) → gather 0 xs xs ≡ 0
unfolding gather
gather_same [] = refl
gather_same (x ∷ xs) = rw (bit_xor_same x x (omega arith)) (gather_same xs)

-- The test of two texts that gathers their differing bits says true exactly where they are equal.
pub ct_eq_iff : (a b : Bytes) → (ct_eq a b ≡ true) ↔ (a ≡ b)
unfolding ct_eq
ct_eq_iff a b = (sound, λ e. rw e complete)
  where
    sound : ct_eq a b ≡ true → a ≡ b
    sound h = elim (Bool-cases (length a == length b)) [
      | inr other ↦ absurd (cc (rw other at h))
      | inl same ↦ (gather_zero 0 a b ((==_iff _ _).0 same) ((==_iff _ _).0 (rw same at h))).1
    ]

    complete : ct_eq b b ≡ true
    complete = rw ((==_iff (length b) (length b)).1 refl, gather_same b) refl
