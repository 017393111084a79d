-- ===== src/Base/Maps.antt =====
-- JavaScript's `Map` with string keys: an association list in order of insertion.
use mathlib.Core.Path.{◌≡◌, refl}
use mathlib.Core.Bool.{Bool, true, false}
use mathlib.Core.Option.{Option, none, some}
use mathlib.Core.List.{List, [], ◌∷◌}
use native.Mathlib.Omega.{arith}
use ms_robot.Base.Tests.{if◌then◌else◌}
use ms_robot.Base.Strings.{Str, str_eq, str_eq_iff}

abbrev pub Map {ℓ} : Type ℓ → Type ℓ
Map V = List (Str × V)

module _ {ℓ} {V : Type ℓ} where
  unfoldable pub get : Map V → Str → Option V
  get [] k = none
  get ((j, v) ∷ m) k = if str_eq j k then some v else get m k

  abbrev pub has : Map V → Str → Bool
  has m k = elim (get m k) [ none ↦ false | some _ ↦ true ]

  -- `m.set(k, v)` keeps the place of a key that is there.
  unfoldable pub put : Map V → Str → V → Map V
  put [] k v = (k, v) ∷ []
  put ((j, w) ∷ m) k v = if str_eq j k then (j, v) ∷ m else (j, w) ∷ put m k v

  unfoldable pub delete : Map V → Str → Map V
  delete [] k = []
  delete ((j, w) ∷ m) k = let rest = delete m k in if str_eq j k then rest else (j, w) ∷ rest

  pub get-put :
      (m : Map V) (k j : Str) (v : V) → get (put m k v) j ≡ (if str_eq k j then some v else get m j)
  unfolding get put
  get-put [] k j v = refl
  get-put ((i, w) ∷ m) k j v =
      ground (arith, str_eq_iff k j, str_eq_iff i k, str_eq_iff i j, get-put m k j v)

  pub get-delete :
      (m : Map V) (k j : Str) → get (delete m k) j ≡ (if str_eq k j then none else get m j)
  unfolding get delete
  get-delete [] k j = ground arith
  get-delete ((i, w) ∷ m) k j =
      ground (arith, str_eq_iff k j, str_eq_iff i k, str_eq_iff i j, get-delete m k j)
