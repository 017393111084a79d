-- ===== src/Mouse/Buttons.antt =====
-- The other buttons of the mouse and its wheel (`setupVideoMouseEvents`).
use ms_robot.Mouse.{Point, Pointer}
use ms_robot.Number.{Number}
use ms_robot.Session.{Page}
use ms_robot.Wire.Codes.{MotionAction, KeyCode, key_code, action_code}
use ms_robot.Wire.Message.{Command, inject_scroll_event}
use ms_robot.Base.Int.{pos, negsuc}
use ms_robot.Base.{ℕ, List, [], ◌∷◌, Bool, Str, Option, none, some, not, ◌&&◌, ◌==◌, if◌then◌else◌}

-- The right button: the key BACK goes down at once and up after 50 ms; likewise the middle button
-- and HOME. A key event is its delay, key code and action.
abbrev context_menu : List (ℕ × ℕ × ℕ)
context_menu =
    (0, key_code KeyCode.back, action_code MotionAction.down)
    ∷ (50, key_code KeyCode.back, action_code MotionAction.up)
    ∷ []

abbrev middle_click : Pointer → List (ℕ × ℕ × ℕ)
middle_click e =
    if e.button == 1
    then (0, key_code KeyCode.home, action_code MotionAction.down)
      ∷ (50, key_code KeyCode.home, action_code MotionAction.up)
      ∷ []
    else []

module _ (F : Number) where
  open F use {Num, of_int, sub, div, less}

  -- `Math.max(-16, Math.min(16, -delta / 10))`
  scroll_amount : Num → Num
  scroll_amount delta =
      let low = of_int (negsuc 15) in
      let high = of_int (pos 16) in
      let s = div (sub (of_int (pos 0)) delta) (of_int (pos 10)) in
      let capped = if less high s then high else s in if less capped low then low else capped

  is_zero : Num → Bool
  is_zero s = not (less s (of_int (pos 0))) && not (less (of_int (pos 0)) s)

  -- A turn of the wheel: the scroll command, unless both amounts are 0.
  abbrev wheel : Page → Str → Point → Num → Num → Option Command
  unfolding scroll_amount is_zero
  wheel page device_udid coords delta_x delta_y =
      let hscroll = scroll_amount delta_x in
      let vscroll = scroll_amount delta_y in
      if is_zero hscroll && is_zero vscroll
      then none
      else some (inject_scroll_event F page device_udid coords.x coords.y hscroll vscroll)
