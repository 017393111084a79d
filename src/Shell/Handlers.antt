-- ===== src/Shell/Handlers.antt =====
-- The handlers of one shell window (assets/web/static/js/app.js): its socket and terminal, the button
-- that collapses it, and the drags that move and resize it.
pub mod Kept
pub mod Sizes
use ms_robot.Base.Int.{◌+ℤ◌, ◌-ℤ◌}
use ms_robot.Base.{
  none, some, true, false, [], ◌∷◌, Str, codes, Bool, ℕ, Option, if◌then◌else◌, str_eq, not, ◌++◌,
  refl, inl, inr, zero, suc, arith,
}
use ms_robot.Shell.{
  unset, auto, px, Length, Window, ℤ, call, Grip, ReadyState, max_ℤ, clear, pos, write, write_line,
  CellSize, is_open, Measures, fit_if_terminal, text,
}

-- `term.onData`: Ctrl with `]` closes the window; the flag of the result tells.
pub on_data : Window → Str → Window × Bool
on_data win typed =
    if str_eq typed (0x1D ∷ [])
    then (win, true)
    else if is_open win.socket
    then (record win { sent = win.sent ++ text typed ∷ [] }, false)
    else (win, false)

-- The events of the web socket.
pub data SocketEvent : Type 0 where
  socket_open socket_error socket_close : SocketEvent
  socket_message : Str → SocketEvent

pub on_socket : Window → SocketEvent → Window
on_socket win socket_open = call (record win { socket = ReadyState.open_ }) clear
on_socket win (socket_message s) = call win (write s)
on_socket win socket_error = call win (write_line (0xD ∷ 0xA ∷ codes "[连接错误]"))
on_socket win socket_close = record (call win (write_line (0xD ∷ 0xA ∷ codes "[已断开]"))) {
  socket = ReadyState.closed;
  has_socket = false;
}

-- `win.style.height || rect + 'px'`
abbrev or_measured : Length → ℤ → Length
or_measured unset measured = px measured
or_measured l measured = l

abbrev or_unset : Option Length → Length
or_unset none = unset
or_unset (some l) = l

pub toggle_collapsed : Window → ℤ → Window
toggle_collapsed win measured =
    if not win.collapsed
    then record win {
      saved_height = some (or_measured win.height measured);
      height = auto;
      min_height_zero = true;
      collapsed = true;
    }
    else record win {
      height = or_unset win.saved_height;
      min_height_zero = false;
      collapsed = false;
    }

-- The place of the header's drag and of the handle's: both keep where the pointer was.
pub on_header_down : Window → Bool → ℤ → ℤ → ℤ → ℤ → Window
on_header_down win on_button x y rect_left rect_top = if on_button then win else record win {
  drag = some (record { start_x = x; start_y = y; first = rect_left; second = rect_top });
}

pub on_drag_move : Window → ℤ → ℤ → Window
on_drag_move win x y = elim win.drag [
  | none ↦ win
  | some g ↦ record win { left = g.first +ℤ (x -ℤ g.start_x); top = g.second +ℤ (y -ℤ g.start_y) }
]

pub on_handle_down : Window → ℤ → ℤ → ℤ → ℤ → Window
on_handle_down win x y rect_width rect_height = record win {
  resizing = some (record { start_x = x; start_y = y; first = rect_width; second = rect_height });
}

-- The size while the handle is dragged: at least 320 by 240.
pub resized : Window → Grip → ℤ → ℤ → Window
resized win g x y = record win {
  width = px (max_ℤ (pos 320) (g.first +ℤ (x -ℤ g.start_x)));
  height = px (max_ℤ (pos 240) (g.second +ℤ (y -ℤ g.start_y)));
}

module _ (cells : ℕ → CellSize → ℕ) where
  -- The click of the collapse button; the window's height and the terminal are measured by the browser.
  pub on_collapse : Window → ℤ → Measures → Window
  on_collapse win measured m =
      if win.collapsed
      then fit_if_terminal cells (toggle_collapsed win measured) m false
      else toggle_collapsed win measured

  resize_by : Window → ℤ → ℤ → Measures → Option Grip → Window
  resize_by win x y m none = win
  resize_by win x y m (some g) = fit_if_terminal cells (resized win g x y) m false

  pub on_resize_move : Window → ℤ → ℤ → Measures → Window
  on_resize_move win x y m = resize_by win x y m win.resizing

  pub on_resize_up : Window → Measures → Window
  on_resize_up win m = elim win.resizing [
    | none ↦ win
    | some g ↦ fit_if_terminal cells (record win { resizing = none }) m true
  ]

pub on_drag_up : Window → Window
on_drag_up win = record win { drag = none }
