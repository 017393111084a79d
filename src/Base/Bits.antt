-- ===== src/Base/Bits.antt =====
-- The bitwise operators `<<` and `|` on 32-bit patterns, and when `|` is a sum.
use Prim.Native.Nat.{
  ℕ, zero, suc, ◌+◌, ◌*◌, ◌/◌, ◌%◌, ◌^◌, ◌≤◌, ◌<◌, max, bit_or, digits, bit_or-bitwise,
}
use mathlib.Core.Path.{◌≡◌, refl, ap}
use native.Mathlib.Nat.{pow-suc}
use native.Mathlib.Omega.{arith}

-- `x << k` as a pattern: the count is taken modulo 32, the result modulo 2^32.
abbrev pub shl32 : ℕ → ℕ → ℕ
shl32 x k = x * 2 ^ (k % 32) % 2 ^ 32

abbrev or_digits : ℕ → ℕ → ℕ → ℕ
or_digits n a b = digits (λ y. y) max n a b

-- Any fuel that is at least the first number gives the same digits.
or_digits_enough : (n m a b : ℕ) → a ≤ n → a ≤ m → or_digits n a b ≡ or_digits m a b
or_digits_enough zero zero zero b h k = refl
or_digits_enough zero (suc m) zero b h k = refl
or_digits_enough (suc n) zero zero b h k = refl
or_digits_enough (suc n) (suc m) zero b h k = refl
or_digits_enough (suc n) (suc m) (suc a) b h k =
    omega (arith, or_digits_enough n m (suc a / 2) (b / 2) (omega arith) (omega arith))
or_digits_enough _ _ (suc a) b h k = absurd (omega arith)

bit_or_step : (a b : ℕ) → bit_or a b ≡ bit_or (a / 2) (b / 2) * 2 + max (a % 2) (b % 2)
bit_or_step zero b = omega (arith, bit_or-bitwise 0 b, bit_or-bitwise 0 (b / 2))
bit_or_step (suc a) b = omega (
  arith,
  bit_or-bitwise (suc a) b,
  bit_or-bitwise (suc a / 2) (b / 2),
  or_digits_enough a (suc a / 2) (suc a / 2) (b / 2) (omega arith) (omega arith),
)

bit_or-zero : (n a : ℕ) → a < n → bit_or a 0 ≡ a
bit_or-zero zero a h = absurd (omega arith)
bit_or-zero (suc n) zero h = refl
bit_or-zero (suc n) (suc a) h =
    omega (arith, bit_or_step (suc a) 0, bit_or-zero n (suc a / 2) (omega arith))

-- A pattern whose low k bits are clear, joined with a k-bit number.
pub bit_or-add : (k a b : ℕ) → b < 2 ^ k → bit_or (a * 2 ^ k) b ≡ a * 2 ^ k + b
bit_or-add zero a b h =
    let e : b ≡ 0 = omega arith in
    let one : a * 2 ^ 0 ≡ a = omega arith in
    rw (e, one) (omega (arith, bit_or-zero (suc a) a (omega arith)))
bit_or-add (suc k) a b h = omega (
  arith,
  double,
  half,
  ap (λ t. bit_or t (b / 2)) half,
  bit_or_step (a * 2 ^ suc k) b,
  bit_or-add k a (b / 2) (omega (arith, pow-suc 2 k)),
)
  where
    double : a * 2 ^ suc k ≡ a * 2 ^ k * 2
    double = omega (arith, ap (λ t. a * t) (pow-suc 2 k))

    half : a * 2 ^ suc k / 2 ≡ a * 2 ^ k
    half = omega (arith, double)

-- `|` is zero only of two zeros.
pub bit_or-eq_zero : (n a b : ℕ) → a < n → b < n → bit_or a b ≡ 0 → (a ≡ 0) × (b ≡ 0)
bit_or-eq_zero zero a b ha hb h = absurd (omega arith)
bit_or-eq_zero (suc n) zero zero ha hb h = (refl, refl)
bit_or-eq_zero (suc n) a b ha hb h = omega (
  arith,
  bit_or_step a b,
  bit_or-eq_zero n (a / 2) (b / 2) (omega arith) (omega arith) (omega (arith, bit_or_step a b)),
)

-- `|` of two k-bit patterns has k bits.
pub bit_or-lt : (k a b : ℕ) → a < 2 ^ k → b < 2 ^ k → bit_or a b < 2 ^ k
bit_or-lt zero a b ha hb =
    let ea : a ≡ 0 = omega arith in let eb : b ≡ 0 = omega arith in rw (ea, eb) (omega arith)
bit_or-lt (suc k) a b ha hb = omega (
  arith,
  pow-suc 2 k,
  bit_or_step a b,
  bit_or-lt k (a / 2) (b / 2) (omega (arith, pow-suc 2 k)) (omega (arith, pow-suc 2 k)),
)

bit_or-half :
    (a b : ℕ) → (bit_or a b / 2 ≡ bit_or (a / 2) (b / 2)) × (bit_or a b % 2 ≡ max (a % 2) (b % 2))
bit_or-half a b = (omega (arith, bit_or_step a b), omega (arith, bit_or_step a b))

zero_bit_or : (b : ℕ) → bit_or 0 b ≡ b
zero_bit_or b = omega (arith, bit_or-bitwise 0 b)

pub bit_or_assoc : (n a b c : ℕ) → a < n → bit_or (bit_or a b) c ≡ bit_or a (bit_or b c)
bit_or_assoc zero a b c h = absurd (omega arith)
bit_or_assoc (suc n) zero b c h =
    omega (
      arith,
      bit_or-bitwise 0 (bit_or b c),
      bit_or-bitwise 0 b,
      ap (λ t. bit_or t c) (zero_bit_or b),
    )
bit_or_assoc (suc n) (suc a) b c h =
    let l = bit_or-half (suc a) b in
    let r = bit_or-half b c in
    omega (
      arith,
      bit_or_step (bit_or (suc a) b) c,
      bit_or_step (suc a) (bit_or b c),
      ap (λ t. bit_or t (c / 2)) l.0,
      l.1,
      ap (λ t. bit_or (suc a / 2) t) r.0,
      r.1,
      bit_or_assoc n (suc a / 2) (b / 2) (c / 2) (omega arith),
    )
