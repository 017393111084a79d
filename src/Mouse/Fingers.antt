-- ===== src/Mouse/Fingers.antt =====
-- Which pointers are down on the device.
use ms_robot.Base.Int.{eq_ℤ, abs, ◌-ℤ◌}
use mathlib.Core.List.{foldl, ◌∷◌, foldl-append}
use ms_robot.Mouse.{
  Mouse, handle, Touch, ScreenSize, MouseEvent, mouse_down, mouse_move, mouse_up, mouse_leave,
  key_up, mouse_id, generic_id, virtual_id, Pointer, run, modified, lift_fingers, touch_of,
}
use ms_robot.Wire.Codes.{MotionAction}
use ms_robot.Base.{false, Bool, List, true, if◌then◌else◌, arith, ◌≡◌, [], ◌<◌, ◌++◌}

-- The pointers that the device holds down.
pub record Held : Type 0 where
  pub mouse : Bool
  pub generic : Bool
  pub virtual : Bool

abbrev pub none_held : Held
none_held = record { mouse = false; generic = false; virtual = false }

-- A pointer is down after DOWN, up after UP, and as before after MOVE.
abbrev pressed : MotionAction → Bool → Bool
pressed MotionAction.down was = true
pressed MotionAction.up was = false
pressed _ was = was

abbrev feel : Held → Touch → Held
feel held t = record {
  mouse = if eq_ℤ t.pointer_id mouse_id then pressed t.action held.mouse else held.mouse;
  generic = if eq_ℤ t.pointer_id generic_id then pressed t.action held.generic else held.generic;
  virtual = if eq_ℤ t.pointer_id virtual_id then pressed t.action held.virtual else held.virtual;
}

abbrev pub feel_all : Held → List Touch → Held
feel_all = foldl feel

-- The two fingers are down exactly in two-finger mode.
pub record Synced (m : Mouse) (held : Held) : Type 0 where
  pub generic : held.generic ≡ m.is_two_finger_mode
  pub virtual : held.virtual ≡ m.is_two_finger_mode

-- Not a left press in the middle of a two-finger gesture.
abbrev Orderly : Mouse → MouseEvent → Type 0
Orderly m (mouse_down e) = e.button ≡ 0 → m.is_two_finger_mode ≡ false
Orderly m _ = Unit

handle-Synced :
    (size : ScreenSize) (m : Mouse) (held : Held) (e : MouseEvent)
    → Orderly m e
    → Synced m held
    → Synced (handle size m e).0 (feel_all held (handle size m e).1)
unfolding handle
handle-Synced size m held (mouse_down e) o h = ground (arith, o)
handle-Synced size m held (mouse_move e) o h = ground arith
handle-Synced size m held (mouse_up e) o h = ground arith
handle-Synced size m held (mouse_leave e) o h = ground arith
handle-Synced size m held (key_up modifier) o h = ground arith

-- Every event is orderly in the state that it meets.
abbrev pub OrderlyRun : ScreenSize → Mouse → List MouseEvent → Type 0
OrderlyRun size m [] = Unit
OrderlyRun size m (e ∷ events) = Orderly m e × OrderlyRun size (handle size m e).0 events

-- Over any sequence of events in which no left press comes in the middle of a two-finger gesture,
-- the device holds the two fingers down exactly in two-finger mode.
pub run-Synced :
    (size : ScreenSize) (m : Mouse) (held : Held) (events : List MouseEvent)
    → OrderlyRun size m events
    → Synced m held
    → Synced (run size m events).0 (feel_all held (run size m events).1)
unfolding run
run-Synced size m held [] o h = h
run-Synced size m held (e ∷ events) (oe, os) h = rw foldl-append (
    run-Synced size (handle size m e).0 (feel_all held (handle size m e).1) events os
      (handle-Synced size m held e oe h))

-- A left press without modifier in the middle of a two-finger gesture ends the gesture and leaves
-- both fingers down on the device.
press-two_fingers :
    (size : ScreenSize) (m : Mouse) (held : Held) (e : Pointer)
    → e.button ≡ 0
    → modified e ≡ false
    → m.is_two_finger_mode ≡ true
    → Synced m held
    → ((handle size m (mouse_down e)).0.is_two_finger_mode ≡ false)
      × ((feel_all held (handle size m (mouse_down e)).1).generic ≡ true)
      × ((feel_all held (handle size m (mouse_down e)).1).virtual ≡ true)
unfolding handle
press-two_fingers size m held e hb hm ht h = ground arith

-- After a left press without modifier, when the mouse leaves the video before it moved, the pointer
-- of the mouse is still down on the device.
pub leave-press :
    (size : ScreenSize) (m : Mouse) (held : Held) (e leave : Pointer)
    → e.button ≡ 0
    → modified e ≡ false
    → (feel_all held (run size m (mouse_down e ∷ mouse_leave leave ∷ [])).1).mouse ≡ true
unfolding run handle
leave-press size m held e leave hb hm = ground arith

-- When the modifier is released in the middle of a two-finger gesture and the mouse then moves by
-- more than 5 across with its button held, both fingers are lifted, no pointer is down, and the
-- pointer of the mouse moves without having been pressed.
pub move-key_up :
    (size : ScreenSize) (m : Mouse) (held : Held) (e : Pointer)
    → m.is_two_finger_mode ≡ true
    → held.mouse ≡ false
    → e.buttons ≡ 1
    → 5 < abs (e.coords.x -ℤ m.last_touch.x)
    → Synced m held
    → ((run size m (key_up true ∷ mouse_move e ∷ [])).1
        ≡ lift_fingers m ++ touch_of e.coords MotionAction.move mouse_id ∷ [])
      × (feel_all held (lift_fingers m) ≡ none_held)
unfolding run handle
move-key_up size m held e ht hm hb hd h = ground arith
