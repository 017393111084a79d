-- ===== src/Wire/Bytes/Value.antt =====
-- What the bytes of a number stand for.
use native.Mathlib.Nat.{
  mod-add-div, div-div-eq-div-mul, mod-lt, pow-suc, mod-eq_of_lt, mod-eq-sub-mod,
}
use native.Mathlib.Numerals.{towards_suc}
use ms_robot.Base.{
  ℕ, zero, suc, ◌+◌, ◌-◌, ◌*◌, ◌/◌, ◌%◌, ◌^◌, ◌<◌, List, [], ◌∷◌, ◌≡◌, ap, ◌∙◌, arith, length, All,
  leb, inl, inr, Bool-cases,
}
use ms_robot.Base.Int.{ℤ, pos, negsuc, residue, low_byte, shift_byte}
use ms_robot.Wire.Bytes.{bytes_loop, raise_negative, to_big_endian_bytes}

abbrev pub IsByte : ℕ → Type 0
IsByte b = b < 256

-- The number that the bytes stand for, read on from `acc`; the first byte is the highest.
unfoldable pub from_bytes : ℕ → List ℕ → ℕ
from_bytes acc [] = acc
from_bytes acc (b ∷ bytes) = from_bytes (acc * 256 + b) bytes

residue_nat : (n m : ℕ) → n % (256 * m) ≡ n / 256 % m * 256 + n % 256
residue_nat n m = omega (
  arith,
  mod-add-div n (256 * m),
  mod-add-div (n / 256) m,
  ap (λ t. 256 * m * t) (div-div-eq-div-mul n 256 m),
)

-- The lowest digit in base 256 splits off.
residue_digit :
    (v : ℤ) (m : ℕ) → 0 < m → residue v (256 * m) ≡ residue (shift_byte v) m * 256 + low_byte v
residue_digit (pos n) m h = residue_nat n m
residue_digit (negsuc n) m h = omega (arith, residue_nat n m, mod-lt (n / 256) h)

pow_byte : (n : ℕ) → 2 ^ (suc n * 8) ≡ 256 * 2 ^ (n * 8)
pow_byte n = let e : suc n * 8 ≡ n * 8 + 8 = omega arith in rw e (simp towards_suc (omega arith))

pow_pos : (n : ℕ) → 0 < 2 ^ n
pow_pos zero = omega arith
pow_pos (suc n) = omega (arith, pow-suc 2 n, pow_pos n)

low_byte-lt : (v : ℤ) → low_byte v < 256
low_byte-lt (pos n) = omega arith
low_byte-lt (negsuc n) = omega arith

from_bytes-loop :
    (i : ℕ) (v : ℤ) (bytes : List ℕ)
    → from_bytes 0 (bytes_loop i v bytes) ≡ from_bytes (residue v (2 ^ (i * 8))) bytes
unfolding bytes_loop from_bytes
from_bytes-loop zero (pos n) bytes = ap (λ t. from_bytes t bytes) (omega arith)
from_bytes-loop zero (negsuc n) bytes = ap (λ t. from_bytes t bytes) (omega arith)
from_bytes-loop (suc i) v bytes =
    rw (pow_byte i, residue_digit v (2 ^ (i * 8)) (pow_pos (i * 8)))
      (from_bytes-loop i (shift_byte v) (low_byte v ∷ bytes))

length-loop : (i : ℕ) (v : ℤ) (bytes : List ℕ) → length (bytes_loop i v bytes) ≡ i + length bytes
unfolding bytes_loop
length-loop zero v bytes = omega arith
length-loop (suc i) v bytes = omega (arith, length-loop i (shift_byte v) (low_byte v ∷ bytes))

All-loop : (i : ℕ) (v : ℤ) (bytes : List ℕ) → All IsByte bytes → All IsByte (bytes_loop i v bytes)
unfolding bytes_loop
All-loop zero v bytes h = h
All-loop (suc i) v bytes h = All-loop i (shift_byte v) (low_byte v ∷ bytes) (low_byte-lt v, h)

-- Raising a negative number by the modulus keeps its residue.
residue-raise_negative : (v : ℤ) (m : ℕ) → 0 < m → residue (raise_negative v m) m ≡ residue v m
unfolding raise_negative
residue-raise_negative (pos n) m h = ground arith
residue-raise_negative (negsuc n) m h = elim (Bool-cases (leb (suc n) m)) [
  | inl fits ↦ ground (arith, mod-eq_of_lt {n = n} {m = m}, mod-eq_of_lt {n = m - suc n} {m = m})
  | inr big ↦ ground (arith, mod-eq-sub-mod {n = n} {m = m})
]

-- The n bytes of an integer stand for its residue modulo 2^(8n), whatever its sign and size.
pub from_bytes-to_big_endian_bytes :
    (v : ℤ) (n : ℕ) → from_bytes 0 (to_big_endian_bytes v n) ≡ residue v (2 ^ (n * 8))
unfolding to_big_endian_bytes from_bytes
from_bytes-to_big_endian_bytes v n =
    from_bytes-loop n _ [] ∙ residue-raise_negative v (2 ^ (n * 8)) (pow_pos (n * 8))

pub length-to_big_endian_bytes : (v : ℤ) (n : ℕ) → length (to_big_endian_bytes v n) ≡ n
length-to_big_endian_bytes v n = unfold to_big_endian_bytes in length-loop n _ [] ∙ omega arith

pub All-to_big_endian_bytes : (v : ℤ) (n : ℕ) → All IsByte (to_big_endian_bytes v n)
unfolding to_big_endian_bytes
All-to_big_endian_bytes v n = All-loop n _ [] tt
