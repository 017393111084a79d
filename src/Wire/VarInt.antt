-- ===== src/Wire/VarInt.antt =====
-- `encodeVarInt` of assets/web/static/js/control.js: seven bits to a byte, the lowest first.
use mathlib.Core.Logic.{dite}
use mathlib.Core.WellFounded.{Acc}
use native.Mathlib.Decide.{dec_le}
use ms_robot.Base.{
  ℕ, ◌+◌, ◌-◌, ◌*◌, ◌/◌, ◌%◌, ◌^◌, ◌≤◌, ◌<◌, List, [], ◌∷◌, ◌++◌, ◌≡◌, arith, Option, none, some,
  ltb, if◌then◌else◌,
}
use ms_robot.Base.Int.{ℤ, pos, negsuc}
use ms_robot.Base.Order.{lt_wf}

-- `value >>> 7` first takes the value modulo 2^32.
abbrev shift_seven : ℕ → ℕ
shift_seven value = value % 2 ^ 32 / 128

shift_seven-lt : (value : ℕ) → 0x80 ≤ value → shift_seven value < value
shift_seven-lt value h = omega arith

-- `(value & 0x7F) | 0x80` joins two patterns with no bit in common.
var_int_loop : (value : ℕ) → Acc ◌<◌ value → List ℕ
var_int_loop value (Acc.intro _ smaller) =
    dite (dec_le 0x80 value)
      (λ more.
        (value % 0x80 + 0x80)
        ∷ var_int_loop (shift_seven value) (smaller _ (shift_seven-lt value more)))
      (λ _. value % 0x80 ∷ [])

-- A negative value never enters the loop; its low seven bits are written.
pub encode_var_int : ℤ → List ℕ
unfolding var_int_loop lt_wf
encode_var_int (pos value) = var_int_loop value (lt_wf.apply value)
encode_var_int (negsuc n) = (0x7F - n % 0x80) ∷ []

-- The number at the head of the bytes, and the bytes behind it: a byte below 0x80 is the last.
pub read_var_int : List ℕ → Option (ℕ × List ℕ)
read_var_int [] = none
read_var_int (b ∷ bytes) = if ltb b 0x80 then some (b, bytes) else elim (read_var_int bytes) [
  | none ↦ none
  | some (n, rest) ↦ some (b - 0x80 + 0x80 * n, rest)
]

read-var_int_loop :
    (value : ℕ) (w : Acc ◌<◌ value) (rest : List ℕ)
    → read_var_int (var_int_loop value w ++ rest) ≡ some (value % 2 ^ 32, rest)
unfolding var_int_loop read_var_int
read-var_int_loop value (Acc.intro _ smaller) rest = grind (
  arith,
  λ (more : shift_seven value < value).
      read-var_int_loop (shift_seven value) (smaller (shift_seven value) more) rest,
)

-- Reading back what was written for a non-negative value gives the value modulo 2^32, and leaves
-- whatever stands behind it.
pub read-encode_var_int :
    (value : ℕ) (rest : List ℕ)
    → read_var_int (encode_var_int (pos value) ++ rest) ≡ some (value % 2 ^ 32, rest)
unfolding encode_var_int
read-encode_var_int value rest = read-var_int_loop value (lt_wf.apply value) rest
