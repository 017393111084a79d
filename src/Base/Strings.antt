-- ===== src/Base/Strings.antt =====
-- JavaScript strings as lists of UTF-16 code units.
use Prim.Native.Nat.{ℕ}
use Prim.Native.Char.{code}
use Prim.Native.String.{String}
use mathlib.Core.Path.{◌≡◌, refl}
use mathlib.Core.Logic.{◌↔◌}
use mathlib.Core.Bool.{Bool, true, false, ◌&&◌}
use mathlib.Core.List.{List, [], ◌∷◌}
use native.Mathlib.Omega.{arith}
use ms_robot.Base.Tests.{◌==◌, ==_iff, if◌then◌else◌}

abbrev pub Str : Type 0
Str = List ℕ

-- The code units of a literal with no character beyond U+FFFF.
abbrev pub codes : String → Str
codes String.[] = []
codes (String.◌∷◌ c s) = code c ∷ codes s

-- `a === b`
abbrev pub str_eq : Str → Str → Bool
str_eq [] [] = true
str_eq (a ∷ s) (b ∷ t) = a == b && str_eq s t
str_eq _ _ = false

pub str_eq_iff : (s t : Str) → (str_eq s t ≡ true) ↔ (s ≡ t)
str_eq_iff [] [] = ground arith
str_eq_iff [] (b ∷ t) = ground arith
str_eq_iff (a ∷ s) [] = ground arith
str_eq_iff (a ∷ s) (b ∷ t) = ground (arith, str_eq_iff s t, ==_iff a b)

pub str_eq_refl : (s : Str) → str_eq s s ≡ true
str_eq_refl s = (str_eq_iff s s).1 refl

-- A string is true unless it is empty.
abbrev pub truthy : Str → Bool
truthy [] = false
truthy (c ∷ s) = true

-- `a || b`
abbrev pub or_else : Str → Str → Str
or_else [] b = b
or_else (c ∷ a) b = c ∷ a

pub or_else-truthy : (a b : Str) → truthy a ≡ true → or_else a b ≡ a
or_else-truthy [] b h = absurd (ground arith)
or_else-truthy (c ∷ a) b h = refl

-- `s.startsWith(p)`
abbrev pub starts_with : Str → Str → Bool
starts_with s [] = true
starts_with [] (p ∷ ps) = false
starts_with (c ∷ s) (p ∷ ps) = c == p && starts_with s ps

-- `s.indexOf(c) >= 0`, for one code unit
abbrev pub contains_unit : Str → ℕ → Bool
contains_unit [] c = false
contains_unit (d ∷ s) c = if d == c then true else contains_unit s c
