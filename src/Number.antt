-- ===== src/Number.antt =====
-- The floating-point arithmetic of JavaScript, as far as the program uses it. Its values stay
-- abstract; whole numbers are ℤ, and `round` (`Math.round`) is taken at finite values.
use ms_robot.Base.{Bool, ℕ, ◌<◌, ◌^◌, ◌≡◌}
use ms_robot.Base.Int.{ℤ, pos}

pub record Number : Type 1 where
  pub Num : Type 0
  pub of_int : ℤ → Num
  pub add : Num → Num → Num
  pub sub : Num → Num → Num
  pub mul : Num → Num → Num
  pub div : Num → Num → Num
  pub less : Num → Num → Bool
  pub round : Num → ℤ

-- A whole number scaled to a fraction of a screen size and back is itself. Doubles do this: each of
-- the two operations has a relative error of at most 2^-53, so the product is off by less than 1/2.
pub record IsAccurate (F : Number) : Type 0 where
  pub round_scale :
      (x w : ℕ)
      → x < 2 ^ 31
      → 0 < w
      → w < 2 ^ 16
      → F.round (F.mul (F.div (F.of_int (pos x)) (F.of_int (pos w))) (F.of_int (pos w))) ≡ pos x
