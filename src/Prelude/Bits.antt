-- ===== src/Prelude/Bits.antt =====
-- The bit operations that the source makes on machine words, and their laws at every width.
use Prim.Native.Nat.{
  ℕ, zero, suc, ◌+◌, ◌*◌, ◌/◌, ◌%◌, ◌^◌, ◌≤◌, ◌<◌, bit_xor, digits, differ, bit_xor-bitwise,
}
use mathlib.Core.Path.{◌≡◌, refl, ap, ap₂}
use native.Mathlib.Omega.{arith}
use native.Mathlib.Nat.{le_refl, two-pow-succ, pow-succ', one-le-pow, div-div-eq-div-mul}
use secgit.Prelude.Tests.{◌==◌, if◌then◌else◌}

-- The number of halvings until a word is zero: `usize::BITS - x.leading_zeros()`.
halvings : ℕ → ℕ → ℕ
halvings zero x = 0
halvings (suc f) x = let rest = suc (halvings f (x / 2)) in if x == 0 then 0 else rest

unfoldable pub bit_length : ℕ → ℕ
unfolding halvings
bit_length x = halvings x x

-- The sum of the binary digits: `x.count_ones()`.
ones_from : ℕ → ℕ → ℕ
ones_from zero x = 0
ones_from (suc f) x = let rest = x % 2 + ones_from f (x / 2) in if x == 0 then 0 else rest

unfoldable pub count_ones : ℕ → ℕ
unfolding ones_from
count_ones x = ones_from x x

halvings_fuel : (f g x : ℕ) → x ≤ f → x ≤ g → halvings f x ≡ halvings g x
unfolding halvings
halvings_fuel zero zero x p q = refl
halvings_fuel zero (suc g) x p q = ground arith
halvings_fuel (suc f) zero x p q = ground arith
halvings_fuel (suc f) (suc g) x p q = ground (arith, halvings_fuel f g (x / 2))

bit_length-zero : bit_length 0 ≡ 0
unfolding bit_length
bit_length-zero = refl

bit_length_step : (x : ℕ) → 0 < x → bit_length x ≡ suc (bit_length (x / 2))
unfolding bit_length
bit_length_step zero h = absurd (omega arith)
bit_length_step (suc x) h = ground (arith, halvings_fuel x (suc x / 2) (suc x / 2))

-- A word below `2 ^ j` has at most `j` digits, and one from there up to `2 ^ (j + 1)` has `j + 1`.
pub bit_length-le : (j x : ℕ) → x < 2 ^ j → bit_length x ≤ j
bit_length-le j zero h = omega (arith, bit_length-zero)
bit_length-le zero (suc x) h = absurd (omega arith)
bit_length-le (suc j) (suc x) h = omega (
  arith,
  bit_length_step (suc x) (omega arith),
  bit_length-le j (suc x / 2) (omega (arith, two-pow-succ j)),
)

pub bit_length_top : (j x : ℕ) → 2 ^ j ≤ x → x < 2 ^ suc j → bit_length x ≡ suc j
bit_length_top zero x lo hi = omega (
  arith,
  two-pow-succ 0,
  bit_length_step x (omega arith),
  bit_length-le 0 (x / 2) (omega (arith, two-pow-succ 0)),
)
bit_length_top (suc j) x lo hi = omega (
  arith,
  bit_length_step x (omega (arith, two-pow-succ j, one-le-pow j 2)),
  bit_length_top j (x / 2) (omega (arith, two-pow-succ j)) (omega (arith, two-pow-succ (suc j))),
)

ones_fuel : (f g x : ℕ) → x ≤ f → x ≤ g → ones_from f x ≡ ones_from g x
unfolding ones_from
ones_fuel zero zero x p q = refl
ones_fuel zero (suc g) x p q = ground arith
ones_fuel (suc f) zero x p q = ground arith
ones_fuel (suc f) (suc g) x p q = ground (arith, ones_fuel f g (x / 2))

pub count_ones_step : (x : ℕ) → count_ones x ≡ x % 2 + count_ones (x / 2)
unfolding count_ones
count_ones_step zero = refl
count_ones_step (suc x) = ground (arith, ones_fuel x (suc x / 2) (suc x / 2))

-- One more digit on top is one more one.
pub count_ones_top : (j a : ℕ) → a < 2 ^ j → count_ones (2 ^ j + a) ≡ count_ones a + 1
unfolding count_ones
count_ones_top zero zero h = refl
count_ones_top zero (suc a) h = absurd (omega arith)
count_ones_top (suc j) a h =
    let half : (2 ^ suc j + a) / 2 ≡ 2 ^ j + a / 2 = omega (arith, two-pow-succ j) in
    let low : (2 ^ suc j + a) % 2 ≡ a % 2 = omega (arith, two-pow-succ j) in
    omega (
      arith,
      count_ones_step (2 ^ suc j + a),
      count_ones_step a,
      count_ones_top j (a / 2) (omega (arith, two-pow-succ j)),
      ap count_ones half,
      low,
    )

-- A shift by one more place is a halving first.
shr-suc : (x i : ℕ) → x / 2 ^ suc i ≡ x / 2 / 2 ^ i
shr-suc x i = rw (pow-succ' 2 i, div-div-eq-div-mul x 2 (2 ^ i))

top-half : (j a : ℕ) → (2 ^ suc j + a) / 2 ≡ 2 ^ j + a / 2
top-half j a = omega (arith, two-pow-succ j)

-- A digit on top does not show in the digits below it.
pub bit_below_top : (j i a : ℕ) → i < j → (2 ^ j + a) / 2 ^ i % 2 ≡ a / 2 ^ i % 2
bit_below_top zero i a h = absurd (omega arith)
bit_below_top (suc j) zero a h = omega (arith, two-pow-succ j)
bit_below_top (suc j) (suc i) a h =
    rw (shr-suc (2 ^ suc j + a) i, shr-suc a i, top-half j a)
      (bit_below_top j i (a / 2) (omega arith))

pub bit_top : (j a : ℕ) → a < 2 ^ j → (2 ^ j + a) / 2 ^ j ≡ 1
bit_top zero a h = omega arith
bit_top (suc j) a h =
    rw (shr-suc (2 ^ suc j + a) j, top-half j a) (bit_top j (a / 2) (omega (arith, two-pow-succ j)))

pub shr_below : (j a : ℕ) → a < 2 ^ j → a / 2 ^ j ≡ 0
shr_below zero a h = omega arith
shr_below (suc j) a h = rw (shr-suc a j) (shr_below j (a / 2) (omega (arith, two-pow-succ j)))

pub count_ones_shr_top :
    (j i a : ℕ) → i ≤ j → a < 2 ^ j → count_ones ((2 ^ j + a) / 2 ^ i) ≡ count_ones (a / 2 ^ i) + 1
count_ones_shr_top j zero a h p =
    omega (
      arith,
      count_ones_top j a p,
      ap count_ones (shr_zero (2 ^ j + a)),
      ap count_ones (shr_zero a),
    )
  where
    shr_zero : (x : ℕ) → x / 2 ^ 0 ≡ x
    shr_zero x = omega arith
count_ones_shr_top zero (suc i) a h p = absurd (omega arith)
count_ones_shr_top (suc j) (suc i) a h p =
    rw (shr-suc (2 ^ suc j + a) i, shr-suc a i, top-half j a)
      (count_ones_shr_top j i (a / 2) (omega arith) (omega (arith, two-pow-succ j)))

-- Any fuel from the first word up gives the same digits.
same_digits :
    (x y f g : ℕ) → x ≤ f → x ≤ g → digits (λ w. w) differ f x y ≡ digits (λ w. w) differ g x y
same_digits zero y zero zero h k = refl
same_digits zero y zero (suc g) h k = refl
same_digits zero y (suc f) zero h k = refl
same_digits zero y (suc f) (suc g) h k = refl
same_digits (suc x) y zero g h k = absurd (omega arith)
same_digits (suc x) y (suc f) zero h k = absurd (omega arith)
same_digits (suc x) y (suc f) (suc g) h k =
    let half = same_digits (suc x / 2) (y / 2) f g (omega arith) (omega arith) in rw half

pub bit_xor_step : (a b : ℕ) → bit_xor a b ≡ bit_xor (a / 2) (b / 2) * 2 + differ (a % 2) (b % 2)
bit_xor_step zero b = simp bit_xor-bitwise (omega arith)
bit_xor_step (suc a) b =
    simp bit_xor-bitwise
      (omega (arith, same_digits (suc a / 2) (b / 2) a (suc a / 2) (omega arith) (le_refl _)))

differ-le : (x y : ℕ) → x < 2 → y < 2 → differ x y < 2
differ-le zero y p q = q
differ-le (suc x) zero p q = p
differ-le (suc x) (suc y) p q = differ-le x y (omega arith) (omega arith)

low_xor : (a b : ℕ) → differ (a % 2) (b % 2) < 2
low_xor a b = differ-le (a % 2) (b % 2) (omega arith) (omega arith)

-- Where only the second word has the top digit, so has the result.
pub bit_xor_top :
    (j a b : ℕ)
    → a < 2 ^ j
    → b < 2 ^ j
    → (2 ^ j ≤ bit_xor a (2 ^ j + b)) × (bit_xor a (2 ^ j + b) < 2 ^ suc j)
bit_xor_top zero zero zero p q = (omega arith, omega arith)
bit_xor_top zero zero (suc b) p q = absurd (omega arith)
bit_xor_top zero (suc a) b p q = absurd (omega arith)
bit_xor_top (suc j) a b p q =
    let ih =
      bit_xor_top j (a / 2) (b / 2) (omega (arith, two-pow-succ j))
        (omega (arith, two-pow-succ j)) in
    let e = bit_xor_step a (2 ^ suc j + b) in
    let t = ap (bit_xor (a / 2)) (top-half j b) in
    let d = low_xor a (2 ^ suc j + b) in
    (
      omega (arith, ih.0, e, t, d, two-pow-succ j),
      omega (arith, ih.1, e, t, d, two-pow-succ j, two-pow-succ (suc j)),
    )

-- Where both have it, it cancels.
pub bit_xor_tops :
    (j a b : ℕ) → a < 2 ^ j → b < 2 ^ j → bit_xor (2 ^ j + a) (2 ^ j + b) ≡ bit_xor a b
bit_xor_tops zero zero zero p q = refl
bit_xor_tops zero zero (suc b) p q = absurd (omega arith)
bit_xor_tops zero (suc a) b p q = absurd (omega arith)
bit_xor_tops (suc j) a b p q = omega (
  arith,
  bit_xor_tops j (a / 2) (b / 2) (omega (arith, two-pow-succ j)) (omega (arith, two-pow-succ j)),
  bit_xor_step (2 ^ suc j + a) (2 ^ suc j + b),
  bit_xor_step a b,
  ap₂ bit_xor (top-half j a) (top-half j b),
  ap₂ differ (low j a) (low j b),
)
  where
    low : (k x : ℕ) → (2 ^ suc k + x) % 2 ≡ x % 2
    low k x = omega (arith, two-pow-succ k)

pub bit_xor-lt : (j a b : ℕ) → a < 2 ^ j → b < 2 ^ j → bit_xor a b < 2 ^ j
bit_xor-lt zero zero zero p q = omega arith
bit_xor-lt zero zero (suc b) p q = absurd (omega arith)
bit_xor-lt zero (suc a) b p q = absurd (omega arith)
bit_xor-lt (suc j) a b p q = omega (
  arith,
  bit_xor-lt j (a / 2) (b / 2) (omega (arith, two-pow-succ j)) (omega (arith, two-pow-succ j)),
  bit_xor_step a b,
  low_xor a b,
  two-pow-succ j,
)
