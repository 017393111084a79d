-- ===== src/Shell/Windows.antt =====
-- The windows of the page in the order of the document, the last on top (assets/web/static/js/app.js).
pub mod Ids
pub mod Orderly
pub mod Raised
use ms_robot.Shell.Handlers.{on_data, on_header_down}
use ms_robot.Shell.{
  Window, CellSize, ℤ, Length, Measures, ReadyState, Call, call, fit_shell_terminal,
  window_position,
}
use ms_robot.Base.{
  none, some, true, false, [], ◌∷◌, suc, Option, ℕ, List, Str, Bool, ◌++◌, if◌then◌else◌, ◌==◌,
  refl, inl, inr, zero, arith,
}

-- `count` is `shellWindowCount`, `active` the id of `currentActiveShellWindow`; `closed` holds the
-- windows taken out, the last first.
pub record Desk : Type 0 where
  pub count : ℕ
  pub windows : List Window
  pub active : Option ℕ
  pub closed : List Window

abbrev pub new_window : ℕ → Str → ℤ × ℤ → Window
new_window id udid place = record {
  id = id;
  udid = udid;
  left = place.0;
  top = place.1;
  width = Length.unset;
  height = Length.unset;
  min_height_zero = false;
  saved_height = none;
  collapsed = false;
  socket = ReadyState.opening;
  has_socket = true;
  has_terminal = true;
  drag = none;
  resizing = none;
  sent = [];
  calls = [];
}

unfoldable pub find_window : List Window → ℕ → Option Window
find_window [] id = none
find_window (w ∷ ws) id = if w.id == id then some w else find_window ws id

-- The windows but the one with an id.
pub without : List Window → ℕ → List Window
without [] id = []
without (w ∷ ws) id = let rest = without ws id in if w.id == id then rest else w ∷ rest

-- The container takes the window at its end.
raise_found : List Window → ℕ → Option Window → List Window
raise_found ws id none = ws
raise_found ws id (some w) = without ws id ++ w ∷ []

pub bring_shell_window_to_front : Desk → ℕ → Desk
unfolding raise_found
bring_shell_window_to_front desk id = record desk {
  windows = raise_found desk.windows id (find_window desk.windows id);
}

pub open_shell_panel : (ℕ → CellSize → ℕ) → Desk → Str → Option (ℤ × ℤ) → ℕ → ℕ → Measures → Desk
open_shell_panel cells desk udid click inner_width inner_height m =
    let id = suc desk.count in
    record desk {
      count = id;
      windows =
          desk.windows
          ++ call
              (fit_shell_terminal cells
                (new_window id udid (window_position click inner_width inner_height id)) m false)
              Call.focus
            ∷ [];
    }

-- A window that is closed: its socket is closed and its terminal disposed.
abbrev shut : Window → Window
shut w = record w {
  socket = if w.has_socket then ReadyState.closing else w.socket;
  has_socket = false;
  calls = if w.has_terminal then w.calls ++ Call.dispose ∷ [] else w.calls;
  has_terminal = false;
}

pub forget : Option ℕ → ℕ → Option ℕ
forget none id = none
forget (some a) id = if a == id then none else some a

close_found : Desk → ℕ → Option Window → Desk
close_found desk id none = desk
close_found desk id (some w) = record desk {
  active = forget desk.active id;
  windows = without desk.windows id;
  closed = shut w ∷ desk.closed;
}

pub close_shell_window : Desk → ℕ → Desk
unfolding close_found
close_shell_window desk id = close_found desk id (find_window desk.windows id)

-- A handler of the window with an id.
pub change : List Window → ℕ → (Window → Window) → List Window
change [] id f = []
change (w ∷ ws) id f = if w.id == id then f w ∷ ws else w ∷ change ws id f

abbrev pub on_window : Desk → ℕ → (Window → Window) → Desk
on_window desk id f = record desk { windows = change desk.windows id f }

focus_terminal : Window → Window
focus_terminal w = if w.has_terminal then call w Call.focus else w

-- A `mousedown` in a window: in the terminal it gives the terminal the focus, elsewhere it raises the
-- window.
pub on_window_down : Desk → ℕ → Bool → Desk
on_window_down desk id in_terminal =
    if in_terminal then on_window desk id focus_terminal else bring_shell_window_to_front desk id

-- A `mousedown` in the header, outside its buttons, raises the window and begins a drag.
pub on_drag_start : Desk → ℕ → Bool → ℤ → ℤ → ℤ → ℤ → Desk
on_drag_start desk id on_button x y rect_left rect_top =
    if on_button
    then desk
    else on_window (bring_shell_window_to_front desk id) id
        (λ w. on_header_down w on_button x y rect_left rect_top)

-- A key typed into a terminal, which may close its window.
typed_found : Desk → ℕ → Str → Option Window → Desk
typed_found desk id typed none = desk
typed_found desk id typed (some w) =
    if (on_data w typed).1
    then close_shell_window desk id
    else on_window desk id (λ w. (on_data w typed).0)

pub on_typed : Desk → ℕ → Str → Desk
unfolding typed_found
on_typed desk id typed = typed_found desk id typed (find_window desk.windows id)

-- The click of the document chooses the window that gets the keys, whose terminal gets the focus at once
-- and once more.
chosen : Option Window → Option ℕ
chosen none = none
chosen (some w) = some w.id

pub choose_window : Desk → ℕ → Desk
unfolding chosen
choose_window desk id =
    on_window (record desk { active = chosen (find_window desk.windows id) }) id
      (λ w. focus_terminal (focus_terminal w))
