-- ===== src/FullScreen/Bar.antt =====
-- Where the panels stand after a bar is cleared, and that the bar under the picture holds at most one.
use ms_robot.Base.Maps.{Map, get, get-put, get-delete}
use ms_robot.FullScreen.{clear_bar, put_if, Place, is_bar, in_bar, in_card}
use ms_robot.Base.{
  Option, some, Str, arith, Bool, ◌≡◌, none, str_eq_iff, false, true, refl, [], ◌∷◌,
}

abbrev pub unless_bar : Option Place → Option Place
unless_bar (some in_bar) = none
unless_bar p = p

pub get-clear_bar : (m : Map Place) (k : Str) → get (clear_bar m) k ≡ unless_bar (get m k)
unfolding clear_bar get
get-clear_bar [] k = refl
get-clear_bar ((j, in_bar) ∷ m) k = ground (arith, get-delete (clear_bar m) j k, get-clear_bar m k)
get-clear_bar ((j, in_card d) ∷ m) k =
    ground (arith, get-put (clear_bar m) j k (in_card d), get-clear_bar m k)

-- No panel is in the bar, or one alone.
abbrev pub IsClear : Map Place → Type 0
IsClear m = (k : Str) → is_bar (get m k) ≡ false

abbrev pub HoldsOne : Map Place → Type 0
HoldsOne m = (j k : Str) → is_bar (get m j) ≡ true → is_bar (get m k) ≡ true → j ≡ k

pub clear_bar-IsClear : (m : Map Place) → IsClear (clear_bar m)
clear_bar-IsClear m k = ground (arith, get-clear_bar m k)

pub put_if-HoldsOne : (b : Bool) (m : Map Place) (k : Str) → IsClear m → HoldsOne (put_if b m k)
unfolding put_if
put_if-HoldsOne false m k clear i j hi hj = absurd (ground (arith, clear i))
put_if-HoldsOne true m k clear i j hi hj = ground (
  arith,
  get-put m k i in_bar,
  get-put m k j in_bar,
  clear i,
  clear j,
  str_eq_iff k i,
  str_eq_iff k j,
)
