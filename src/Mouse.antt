-- ===== src/Mouse.antt =====
-- `setupVideoMouseEvents` of assets/web/static/js/app.js: mouse events on the video become touches
-- of one pointer, or of two while Ctrl or Shift is held. The overlay that shows the two fingers is
-- drawn elsewhere; `touchStartTime` is written there and never read.
pub mod Area
pub mod Bounds
pub mod Buttons
pub mod Fingers
pub mod Gesture
use ms_robot.Control.Device.{clamp}
use mathlib.Core.Bool.{xor}
use ms_robot.Wire.Codes.{MotionAction, key_code, KeyCode, action_code}
use ms_robot.Wire.Message.{Command, inject_scroll_event}
use ms_robot.Session.{ScreenSize, Page}
use ms_robot.Base.Int.{ℤ, pos, negsuc, abs, ◌-ℤ◌}
use ms_robot.Number.{Number}
use ms_robot.Base.{
  ℕ, List, false, Bool, ◌∷◌, Str, not, true, if◌then◌else◌, ◌++◌, Option, ◌||◌, [], ltb, ◌&&◌, ◌==◌,
  none, some,
}

pub record Point : Type 0 where
  pub x : ℤ
  pub y : ℤ

-- A mouse event at a point of the device screen.
pub record Pointer : Type 0 where
  pub button : ℕ
  pub buttons : ℕ
  pub coords : Point
  pub ctrl_key : Bool
  pub shift_key : Bool

-- The arguments of `injectTouchEvent` behind the device.
pub record Touch : Type 0 where
  pub point : Point
  pub action : MotionAction
  pub pointer_id : ℤ

-- `SC_POINTER_ID_MOUSE`, `SC_POINTER_ID_GENERIC_FINGER`, `SC_POINTER_ID_VIRTUAL_FINGER`
abbrev pub mouse_id : ℤ
mouse_id = negsuc 0

abbrev generic_id : ℤ
generic_id = negsuc 1

abbrev virtual_id : ℤ
virtual_id = negsuc 2

-- The variables that the handlers share.
pub record Mouse : Type 0 where
  pub is_dragging : Bool
  pub last_touch : Point
  pub is_two_finger_mode : Bool
  pub first_finger : Point
  pub second_finger : Point
  pub invert_x : Bool
  pub invert_y : Bool

abbrev origin : Point
origin = record { x = pos 0; y = pos 0 }

abbrev pub initial : Mouse
initial = record {
  is_dragging = false;
  last_touch = origin;
  is_two_finger_mode = false;
  first_finger = origin;
  second_finger = origin;
  invert_x = false;
  invert_y = false;
}

-- The second finger mirrors the mouse at the middle of the screen, on the inverted axes.
calculate_virtual_finger : Bool → Bool → Point → ScreenSize → Point
calculate_virtual_finger invert_x invert_y p size = record {
  x = clamp (if invert_x then pos size.width -ℤ p.x else p.x) size.width;
  y = clamp (if invert_y then pos size.height -ℤ p.y else p.y) size.height;
}

abbrev pub touch_of : Point → MotionAction → ℤ → Touch
touch_of point action pointer_id = record {
  point = point;
  action = action;
  pointer_id = pointer_id;
}

-- Both fingers up, the virtual one first.
abbrev pub lift_fingers : Mouse → List Touch
lift_fingers m =
    touch_of m.first_finger MotionAction.up virtual_id
    ∷ touch_of m.second_finger MotionAction.up generic_id
    ∷ []

-- Ctrl and Shift together are taken apart by exclusive or.
abbrev inverted_x : Pointer → Bool
inverted_x e = xor e.ctrl_key e.shift_key

abbrev modified : Pointer → Bool
modified e = e.ctrl_key || e.shift_key

-- Two fingers at the mouse and at its mirror image.
two_fingers : ScreenSize → Mouse → Pointer → Mouse
two_fingers size m e = record m {
  last_touch = e.coords;
  is_two_finger_mode = true;
  first_finger = calculate_virtual_finger (inverted_x e) e.ctrl_key e.coords size;
  second_finger = e.coords;
  invert_x = inverted_x e;
  invert_y = e.ctrl_key;
}

both_fingers : MotionAction → Mouse → List Touch
both_fingers action m =
    touch_of m.second_finger action generic_id ∷ touch_of m.first_finger action virtual_id ∷ []

-- The left button goes down. A two-finger gesture still under way is dropped without a touch.
on_press : ScreenSize → Mouse → Pointer → Mouse × List Touch
unfolding two_fingers both_fingers
on_press size m e =
    let fresh = record m {
      is_dragging = false;
      last_touch = e.coords;
      is_two_finger_mode = false;
    } in
    let fingers = two_fingers size fresh e in
    if modified e
    then (fingers, both_fingers MotionAction.down fingers)
    else (fresh, touch_of e.coords MotionAction.down mouse_id ∷ [])

on_mouse_down : ScreenSize → Mouse → Pointer → Mouse × List Touch
unfolding on_press
on_mouse_down size m e = if e.button == 0 then on_press size m e else (m, [])

-- The modifier is gone while two fingers are down: they are lifted, and the mouse pointer goes down.
leave_two_fingers : Mouse → Pointer → Mouse × List Touch
leave_two_fingers m e = (
  record m { is_dragging = false; last_touch = e.coords; is_two_finger_mode = false },
  lift_fingers m ++ touch_of e.coords MotionAction.down mouse_id ∷ [],
)

-- A drag begins when the mouse moved by more than 5 on an axis since the last event.
drags : Mouse → Pointer → Bool
drags m e =
    m.is_dragging
    || (ltb 5 (abs (e.coords.x -ℤ m.last_touch.x)) || ltb 5 (abs (e.coords.y -ℤ m.last_touch.y)))

on_drag : Mouse → Pointer → Mouse × List Touch
unfolding drags
on_drag m e = (
  record m { is_dragging = drags m e; last_touch = e.coords },
  if drags m e then touch_of e.coords MotionAction.move mouse_id ∷ [] else [],
)

on_mouse_move : ScreenSize → Mouse → Pointer → Mouse × List Touch
unfolding leave_two_fingers on_drag two_fingers both_fingers
on_mouse_move size m e =
    let fingers = two_fingers size m e in
    if not (e.buttons == 1)
    then (m, [])
    else if m.is_two_finger_mode && not (modified e)
    then leave_two_fingers m e
    else if m.is_two_finger_mode
    then (fingers, both_fingers MotionAction.move fingers)
    else on_drag m e

on_mouse_up : Mouse → Pointer → Mouse × List Touch
on_mouse_up m e = if not (e.button == 0) then (m, []) else (
  record m { is_dragging = false; is_two_finger_mode = false },
  if m.is_two_finger_mode then lift_fingers m else touch_of e.coords MotionAction.up mouse_id ∷ [],
)

on_mouse_leave : Mouse → Pointer → Mouse × List Touch
on_mouse_leave m e =
    if m.is_two_finger_mode
    then (record m { is_two_finger_mode = false }, lift_fingers m)
    else if m.is_dragging
    then (record m { is_dragging = false }, touch_of e.coords MotionAction.up mouse_id ∷ [])
    else (m, [])

-- `modifier`: the key is Control or Shift.
on_key_up : Mouse → Bool → Mouse × List Touch
on_key_up m modifier =
    if modifier && m.is_two_finger_mode
    then (record m { is_two_finger_mode = false }, lift_fingers m)
    else (m, [])

pub data MouseEvent : Type 0 where
  mouse_down mouse_move mouse_up mouse_leave : Pointer → MouseEvent
  key_up : Bool → MouseEvent

pub handle : ScreenSize → Mouse → MouseEvent → Mouse × List Touch
unfolding on_mouse_down on_mouse_move on_mouse_up on_mouse_leave on_key_up
handle size m (mouse_down e) = on_mouse_down size m e
handle size m (mouse_move e) = on_mouse_move size m e
handle size m (mouse_up e) = on_mouse_up m e
handle size m (mouse_leave e) = on_mouse_leave m e
handle size m (key_up modifier) = on_key_up m modifier

-- A sequence of events, with all touches in order.
pub run : ScreenSize → Mouse → List MouseEvent → Mouse × List Touch
run size m [] = (m, [])
run size m (e ∷ events) =
    let (m', touches) = handle size m e in
    let (m'', more) = run size m' events in (m'', touches ++ more)
