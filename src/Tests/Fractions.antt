-- ===== src/Tests/Fractions.antt =====
-- Fractions of natural numbers, in place of floating-point numbers.
use ms_robot.Base.Int.{ℤ, pos, negsuc}
use ms_robot.Base.{ℕ, ◌*◌, ◌<◌, ◌+◌, ◌-◌, ◌/◌, ltb, ◌≡◌, ap, arith, ◌∙◌}
use ms_robot.Number.{Number, IsAccurate}
use native.Mathlib.Nat.{add-mul-div_left, div-eq_of_lt, mul_assoc, mul_comm, mul-one, one-mul}

abbrev whole : ℤ → ℕ
whole (pos n) = n
whole (negsuc n) = 0

-- A fraction is its numerator and its denominator; `round` rounds halves up.
abbrev pub fractions : Number
fractions = record {
  Num = ℕ × ℕ;
  of_int = λ v. (whole v, 1);
  add = λ a b. (a.0 * b.1 + b.0 * a.1, a.1 * b.1);
  sub = λ a b. (a.0 * b.1 - b.0 * a.1, a.1 * b.1);
  mul = λ a b. (a.0 * b.0, a.1 * b.1);
  div = λ a b. (a.0 * b.1, a.1 * b.0);
  less = λ a b. ltb (a.0 * b.1) (b.0 * a.1);
  round = λ a. pos ((2 * a.0 + a.1) / (2 * a.1));
}

twice : (x w : ℕ) → 2 * (x * w) + w ≡ w + 2 * w * x
twice x w = rw (mul_assoc 2 w x, mul_comm w x) (omega arith)

round-whole : (x w : ℕ) → 0 < w → (2 * (x * w) + w) / (2 * w) ≡ x
round-whole x w h =
    ap (λ n. n / (2 * w)) (twice x w)
    ∙ (add-mul-div_left w x (omega arith)
        ∙ rw (div-eq_of_lt {n = w} {m = 2 * w} (omega arith)) (omega arith))

pub fractions-IsAccurate : IsAccurate fractions
fractions-IsAccurate = record {
  round_scale = λ x w hx hw hl. simp (mul-one, one-mul, round-whole x w hw);
}
