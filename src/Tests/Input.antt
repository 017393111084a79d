-- ===== src/Tests/Input.antt =====
-- Mouse and keyboard at concrete inputs.
use ms_robot.Base.Int.{pos}
use ms_robot.Mouse.Gesture.{IsMove, run-gesture}
use ms_robot.Mouse.Bounds.{OnScreen, run-OnScreen, convert-OnScreen}
use ms_robot.Mouse.Fingers.{
  feel_all, Synced, OrderlyRun, Held, none_held, run-Synced, leave-press, move-key_up,
}
use ms_robot.Base.{All, ◌≡◌, ℕ, [], List, true, refl, false, arith, ◌∷◌, map, ◌++◌}
use ms_robot.Wire.Codes.{MotionAction}
use ms_robot.Session.{ScreenSize}
use ms_robot.Tests.Fractions.{fractions}
use ms_robot.Mouse.Area.{convert_to_device_coordinates, Rect}
use ms_robot.Mouse.{
  Mouse, Pointer, Point, run, initial, mouse_down, mouse_move, mouse_up, mouse_leave, key_up,
  lift_fingers, touch_of, Touch, MouseEvent, mouse_id,
}

abbrev screen : ScreenSize
screen = record { width = 720; height = 1600 }

abbrev at : ℕ → Point
at n = record { x = pos n; y = pos n }

abbrev plain : ℕ → Pointer
plain n = record { button = 0; buttons = 1; coords = at n; ctrl_key = false; shift_key = false }

abbrev with_ctrl : ℕ → Pointer
with_ctrl n = record (plain n) { ctrl_key = true }

abbrev pinch : List MouseEvent
pinch = mouse_down (with_ctrl 10) ∷ mouse_move (with_ctrl 40) ∷ mouse_up (with_ctrl 40) ∷ []

initial-Synced : Synced initial none_held
initial-Synced = record { generic = refl; virtual = refl }

pinch-OrderlyRun : OrderlyRun screen initial pinch
pinch-OrderlyRun = ((λ h. refl), (tt, (tt, tt)))

run-Synced_example :
    Synced (run screen initial pinch).0 (feel_all none_held (run screen initial pinch).1)
run-Synced_example = run-Synced screen initial none_held pinch pinch-OrderlyRun initial-Synced

run-gesture_example :
    (middle : List Touch) × All IsMove middle
    × ((run screen initial
          (mouse_down (plain 10) ∷ (map mouse_move (plain 40 ∷ []) ++ mouse_up (plain 40) ∷ []))).1
        ≡ touch_of (at 10) MotionAction.down mouse_id
          ∷ (middle ++ touch_of (at 40) MotionAction.up mouse_id ∷ []))
run-gesture_example =
    run-gesture screen initial (plain 10) (plain 40 ∷ []) (plain 40) refl refl
      (record { held = refl; plain = refl }, tt) refl

at_10-OnScreen : OnScreen screen (at 10)
at_10-OnScreen = record { across = (refl, omega arith); down = (refl, omega arith) }

at_40-OnScreen : OnScreen screen (at 40)
at_40-OnScreen = record { across = (refl, omega arith); down = (refl, omega arith) }

run-OnScreen_example : All (λ t. OnScreen screen t.point) (run screen initial pinch).1
run-OnScreen_example =
    run-OnScreen screen initial pinch (omega arith) (omega arith)
      (at_10-OnScreen, (at_40-OnScreen, (at_40-OnScreen, tt)))
      (record { first = λ h. ground arith; second = λ h. ground arith })

abbrev element : Rect (ℕ × ℕ)
element = record { left = (0, 1); top = (0, 1); width = (360, 1); height = (800, 1) }

convert-OnScreen_example :
    OnScreen screen (convert_to_device_coordinates fractions element screen (100, 1) (900, 1))
convert-OnScreen_example =
    convert-OnScreen fractions element screen (100, 1) (900, 1) (omega arith) (omega arith)

-- In the middle of a two-finger gesture.
abbrev pinched : Mouse
pinched = record initial { is_two_finger_mode = true; last_touch = at 10 }

abbrev two_held : Held
two_held = record { mouse = false; generic = true; virtual = true }

pinched-Synced : Synced pinched two_held
pinched-Synced = record { generic = refl; virtual = refl }

leave-press_example :
    (feel_all none_held
      (run screen initial (mouse_down (plain 10) ∷ mouse_leave (plain 12) ∷ [])).1).mouse
    ≡ true
leave-press_example = leave-press screen initial none_held (plain 10) (plain 12) refl refl

move-key_up_example :
    ((run screen pinched (key_up true ∷ mouse_move (plain 40) ∷ [])).1
      ≡ lift_fingers pinched ++ touch_of (at 40) MotionAction.move mouse_id ∷ [])
    × (feel_all two_held (lift_fingers pinched) ≡ none_held)
move-key_up_example =
    move-key_up screen pinched two_held (plain 40) refl refl refl (omega arith) pinched-Synced
