-- ===== src/Mouse/Gesture.antt =====
-- A drag with one pointer, from press to release.
use mathlib.Core.List.{append_assoc}
use ms_robot.Session.{ScreenSize}
use ms_robot.Mouse.{
  Touch, Pointer, handle, Mouse, modified, MotionAction, mouse_id, mouse_move, run, mouse_down,
  mouse_up, touch_of, MouseEvent,
}
use ms_robot.Base.{List, ◌≡◌, false, All, ◌∷◌, map, arith, ◌++◌, [], All-append, refl}

-- A move with the left button held and no modifier.
pub record IsDragMove (e : Pointer) : Type 0 where
  pub held : e.buttons ≡ 1
  pub plain : modified e ≡ false

abbrev pub IsMove : Touch → Type 0
IsMove t = (t.action ≡ MotionAction.move) × (t.pointer_id ≡ mouse_id)

drag-IsMove :
    (size : ScreenSize) (m : Mouse) (e : Pointer)
    → m.is_two_finger_mode ≡ false
    → IsDragMove e
    → All IsMove (handle size m (mouse_move e)).1
      × ((handle size m (mouse_move e)).0.is_two_finger_mode ≡ false)
unfolding handle
drag-IsMove size m e hm h = ground arith

run-cons :
    (size : ScreenSize) (m : Mouse) (e : MouseEvent) (events : List MouseEvent)
    → (run size m (e ∷ events)).1 ≡ (handle size m e).1 ++ (run size (handle size m e).0 events).1
unfolding run
run-cons size m e events = refl

-- From one-finger mode, plain drag moves and the release give moves of the mouse pointer, then UP.
release_after_moves :
    (size : ScreenSize) (m : Mouse) (moves : List Pointer) (release : Pointer)
    → m.is_two_finger_mode ≡ false
    → All IsDragMove moves
    → release.button ≡ 0
    → (middle : List Touch) × All IsMove middle
      × ((run size m (map mouse_move moves ++ mouse_up release ∷ [])).1
          ≡ middle ++ touch_of release.coords MotionAction.up mouse_id ∷ [])
release_after_moves size m [] release hm ha hr = ([], tt, unfold run handle in ground arith)
release_after_moves size m (e ∷ moves) release hm (he, ha) hr =
    let (moved, mode) = drag-IsMove size m e hm he in
    let (middle, all, path) =
      release_after_moves size (handle size m (mouse_move e)).0 moves release mode ha hr in
    (
      (handle size m (mouse_move e)).1 ++ middle,
      All-append IsMove _ _ moved all,
      rw (run-cons, path, append_assoc),
    )

press-plain :
    (size : ScreenSize) (m : Mouse) (press : Pointer)
    → press.button ≡ 0
    → modified press ≡ false
    → ((handle size m (mouse_down press)).0.is_two_finger_mode ≡ false)
      × ((handle size m (mouse_down press)).1
          ≡ touch_of press.coords MotionAction.down mouse_id ∷ [])
unfolding handle
press-plain size m press hp hm = ground arith

-- A press without modifier, plain drag moves and a release: the device gets DOWN at the press, then
-- only moves of the same pointer, then UP at the release.
pub run-gesture :
    (size : ScreenSize) (m : Mouse) (press : Pointer) (moves : List Pointer) (release : Pointer)
    → press.button ≡ 0
    → modified press ≡ false
    → All IsDragMove moves
    → release.button ≡ 0
    → (middle : List Touch) × All IsMove middle
      × ((run size m (mouse_down press ∷ (map mouse_move moves ++ mouse_up release ∷ []))).1
          ≡ touch_of press.coords MotionAction.down mouse_id
            ∷ (middle ++ touch_of release.coords MotionAction.up mouse_id ∷ []))
run-gesture size m press moves release hp hm ha hr =
    let (mode, first) = press-plain size m press hp hm in
    let (middle, all, path) =
      release_after_moves size (handle size m (mouse_down press)).0 moves release mode ha hr in
    (middle, all, rw (run-cons, first, path))
