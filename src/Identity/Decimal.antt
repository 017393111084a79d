-- ===== src/Identity/Decimal.antt =====
-- The decimal digits of a number stand for it: the fuel of `decimal` is enough.
use ms_robot.Base.{ℕ, Str, ◌∷◌, ◌<◌, ◌≡◌, ◌*◌, ◌++◌, suc, arith, [], ◌+◌, ◌-◌, ◌/◌, refl, ◌%◌, zero}
use ms_robot.Identity.{decimal, decimal_loop}

-- The number that some digits stand for, behind those read before.
value : ℕ → Str → ℕ
value acc [] = acc
value acc (c ∷ s) = value (acc * 10 + (c - 48)) s

value-append : (acc : ℕ) (s : Str) (c : ℕ) → value acc (s ++ c ∷ []) ≡ value acc s * 10 + (c - 48)
unfolding value
value-append acc [] c = refl
value-append acc (d ∷ s) c = value-append (acc * 10 + (d - 48)) s c

value-decimal_loop : (fuel n : ℕ) → n < fuel → value 0 (decimal_loop fuel n) ≡ n
unfolding decimal_loop value
value-decimal_loop zero n h = absurd (omega arith)
value-decimal_loop (suc fuel) n h = ground (
  arith,
  value-append 0 (decimal_loop fuel (n / 10)) (48 + n % 10),
  value-decimal_loop fuel (n / 10),
)

-- Reading the decimal digits of a number gives the number.
value-decimal : (n : ℕ) → value 0 (decimal n) ≡ n
unfolding decimal
value-decimal n = value-decimal_loop (suc n) n (omega arith)
