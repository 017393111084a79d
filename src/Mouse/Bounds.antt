-- ===== src/Mouse/Bounds.antt =====
-- Every touch lies on the screen of the device.
use ms_robot.Mouse.Area.{convert_to_device_coordinates, Rect}
use ms_robot.Mouse.{
  calculate_virtual_finger, Number, Point, MouseEvent, Mouse, mouse_down, mouse_move, mouse_up,
  mouse_leave, key_up, clamp, handle, inverted_x, run,
}
use ms_robot.Session.{ScreenSize}
use ms_robot.Base.Int.{ℤ, neg_part, pos_part, pos, negsuc}
use ms_robot.Base.{
  ℕ, Bool, ◌≡◌, ◌<◌, All, true, arith, Bool-cases, inl, inr, List, ◌∷◌, All-append, [],
}

-- A coordinate in 0, …, n - 1.
abbrev InRange : ℤ → ℕ → Type 0
InRange v n = (neg_part v ≡ 0) × (pos_part v < n)

pub record OnScreen (size : ScreenSize) (p : Point) : Type 0 where
  pub across : InRange p.x size.width
  pub down : InRange p.y size.height

clamp-InRange : (v : ℤ) (n : ℕ) → 0 < n → InRange (clamp v n) n
clamp-InRange (pos k) n h = (ground arith, ground arith)
clamp-InRange (negsuc k) n h = (ground arith, ground arith)

-- Whatever the arithmetic gives, a position on the page becomes a point of the screen.
pub convert-OnScreen :
    (F : Number) (rect : Rect F.Num) (size : ScreenSize) (client_x client_y : F.Num)
    → 0 < size.width
    → 0 < size.height
    → OnScreen size (convert_to_device_coordinates F rect size client_x client_y)
unfolding convert_to_device_coordinates
convert-OnScreen F rect size client_x client_y hw hh =
    let aspect = F.div (F.of_int (pos size.width)) (F.of_int (pos size.height)) in
    elim (Bool-cases (F.less (F.div rect.width rect.height) aspect)) [
      | inl e ↦
          rw e (record {
            across = clamp-InRange _ size.width hw;
            down = clamp-InRange _ size.height hh;
          })
      | inr e ↦
          rw e (record {
            across = clamp-InRange _ size.width hw;
            down = clamp-InRange _ size.height hh;
          })
    ]

virtual-OnScreen :
    (ix iy : Bool) (p : Point) (size : ScreenSize)
    → 0 < size.width
    → 0 < size.height
    → OnScreen size (calculate_virtual_finger ix iy p size)
unfolding calculate_virtual_finger
virtual-OnScreen ix iy p size hw hh = record {
  across = clamp-InRange _ size.width hw;
  down = clamp-InRange _ size.height hh;
}

-- In two-finger mode both fingers lie on the screen.
pub record Placed (size : ScreenSize) (m : Mouse) : Type 0 where
  pub first : m.is_two_finger_mode ≡ true → OnScreen size m.first_finger
  pub second : m.is_two_finger_mode ≡ true → OnScreen size m.second_finger

abbrev EventOnScreen : ScreenSize → MouseEvent → Type 0
EventOnScreen size (mouse_down e) = OnScreen size e.coords
EventOnScreen size (mouse_move e) = OnScreen size e.coords
EventOnScreen size (mouse_up e) = OnScreen size e.coords
EventOnScreen size (mouse_leave e) = OnScreen size e.coords
EventOnScreen size (key_up modifier) = Unit

handle-Placed :
    (size : ScreenSize) (m : Mouse) (e : MouseEvent)
    → 0 < size.width
    → 0 < size.height
    → EventOnScreen size e
    → Placed size m
    → Placed size (handle size m e).0 × All (λ t. OnScreen size t.point) (handle size m e).1
unfolding handle
handle-Placed size m (mouse_down e) hw hh he h =
    let v = virtual-OnScreen (inverted_x e) e.ctrl_key e.coords size hw hh in ground (arith, v)
handle-Placed size m (mouse_move e) hw hh he h =
    let v = virtual-OnScreen (inverted_x e) e.ctrl_key e.coords size hw hh in ground (arith, v)
handle-Placed size m (mouse_up e) hw hh he h = ground arith
handle-Placed size m (mouse_leave e) hw hh he h = ground arith
handle-Placed size m (key_up modifier) hw hh he h = ground arith

-- Over any sequence of events at points of the screen, every touch lies on the screen.
pub run-OnScreen :
    (size : ScreenSize) (m : Mouse) (events : List MouseEvent)
    → 0 < size.width
    → 0 < size.height
    → All (EventOnScreen size) events
    → Placed size m
    → All (λ t. OnScreen size t.point) (run size m events).1
unfolding run
run-OnScreen size m [] hw hh he h = tt
run-OnScreen size m (e ∷ events) hw hh (he, hs) h =
    let (placed, here) = handle-Placed size m e hw hh he h in
    All-append (λ t. OnScreen size t.point) _ _ here
      (run-OnScreen size (handle size m e).0 events hw hh hs placed)
