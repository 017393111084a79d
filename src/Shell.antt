-- ===== src/Shell.antt =====
-- The shell windows (assets/web/static/js/app.js): one terminal with its web socket in a window that
-- can be moved, resized and collapsed. xterm.js and the layout are the browser's: their measures are
-- arguments, and the calls of the terminal are recorded. Pixels are whole.
pub mod Windows
pub mod Handlers
pub mod Bounds
pub mod Events
use Prim.Native.Nat.{max}
use ms_robot.Base.Int.{ℤ, max_ℤ, pos, min_ℤ, ◌-ℤ◌}
use ms_robot.Base.{
  none, some, true, false, refl, inl, inr, [], ◌∷◌, zero, suc, arith, Str, Option, List, ℕ, Bool,
  ◌++◌, ◌/◌, if◌then◌else◌, leb, ltb, ◌&&◌, ◌^◌, ◌-◌, ◌==◌, ◌+◌, ◌%◌, ◌*◌,
}
use ms_robot.Session.{ReadyState}

-- `style.height` or `style.width`
pub data Length : Type 0 where
  unset auto : Length
  px : ℤ → Length

pub data Frame : Type 0 where
  text : Str → Frame
  binary : List ℕ → Frame

-- A call of the terminal.
pub data Call : Type 0 where
  focus clear dispose : Call
  write write_line : Str → Call
  resize : ℕ → ℕ → Call

-- Where a drag began: the pointer and the window's position or size.
pub record Grip : Type 0 where
  pub start_x : ℤ
  pub start_y : ℤ
  pub first : ℤ
  pub second : ℤ

-- `socket` is the state of the web socket; `has_socket` and `has_terminal` tell whether `_shellWs` and
-- `_shellTerminal` are there.
pub record Window : Type 0 where
  pub id : ℕ
  pub udid : Str
  pub left : ℤ
  pub top : ℤ
  pub width : Length
  pub height : Length
  pub min_height_zero : Bool
  pub saved_height : Option Length
  pub collapsed : Bool
  pub socket : ReadyState
  pub has_socket : Bool
  pub has_terminal : Bool
  pub drag : Option Grip
  pub resizing : Option Grip
  pub sent : List Frame
  pub calls : List Call

abbrev pub is_open : ReadyState → Bool
is_open ReadyState.open_ = true
is_open _ = false

abbrev call : Window → Call → Window
call win c = record win { calls = win.calls ++ c ∷ [] }

-- `Math.max(8, Math.min(x, inner - size - 8))`
unfoldable pub clamp_edge : ℤ → ℕ → ℤ → ℤ
clamp_edge x inner size = max_ℤ (pos 8) (min_ℤ x ((pos inner -ℤ size) -ℤ pos 8))

-- Where a new window stands: at the click, or at one of five places in turn.
pub window_position : Option (ℤ × ℤ) → ℕ → ℕ → ℕ → ℤ × ℤ
window_position (some (client_x, client_y)) inner_width inner_height count = (
  clamp_edge (client_x -ℤ pos 320) inner_width (pos 640),
  clamp_edge (client_y -ℤ pos 21) inner_height (pos 480),
)
window_position none inner_width inner_height count =
    (pos (80 + (count - 1) % 5 * 24), pos (60 + (count - 1) % 5 * 24))

-- `DataView.setUint32`, big-endian
pub set_uint32 : ℕ → List ℕ
set_uint32 n = n / 2 ^ 24 % 256 ∷ n / 2 ^ 16 % 256 ∷ n / 2 ^ 8 % 256 ∷ n % 256 ∷ []

pub resize_frame : ℕ → ℕ → List ℕ
resize_frame cols rows = 1 ∷ (set_uint32 cols ++ set_uint32 rows)

-- `sendShellResize`, on the socket that the window has.
send_shell_resize : Window → ℕ → ℕ → Window
send_shell_resize win cols rows =
    if is_open win.socket
    then record win { sent = win.sent ++ binary (resize_frame cols rows) ∷ [] }
    else win

-- The measures that a fit takes: whether the terminal's element is in the document, the visible width
-- and height, and the size of a cell, a whole number of pixels or the share of a cell of the screen.
pub data CellSize : Type 0 where
  whole : ℕ → CellSize
  share : ℕ → ℕ → CellSize

pub record Measures : Type 0 where
  pub in_document : Bool
  pub client_width : ℕ
  pub viewport_width : ℕ
  pub client_height : ℕ
  pub measured_width : ℕ
  pub screen_width : ℕ
  pub screen_height : ℕ
  pub prev_cols : ℕ
  pub prev_rows : ℕ
  pub has_screen : Bool

-- The visible width, which a scroll bar makes smaller.
pub visible_width : Measures → ℕ
visible_width m = if ltb 0 m.viewport_width then m.viewport_width else m.client_width

-- The cell of the last layout, if there is one.
cell_size : Measures → ℕ → ℕ → ℕ → CellSize
cell_size m screen prev measured =
    if m.has_screen && (ltb 0 m.prev_cols && ltb 0 m.prev_rows) && ltb 0 screen
    then share screen prev
    else whole measured

-- Math.ceil(13 * 1.35) = 18, the height of a line at the default size of the font
abbrev line_height : ℕ
line_height = 18

or_8 : ℕ → ℕ
or_8 n = if n == 0 then 8 else n

-- `cells w c` is `Math.floor(w / c)`, computed in floating point.
module _ (cells : ℕ → CellSize → ℕ) where
  unfoldable pub fit_cols : Measures → ℕ
  unfolding visible_width cell_size or_8
  fit_cols m =
      max 2
        (cells (visible_width m) (cell_size m m.screen_width m.prev_cols (or_8 m.measured_width)))

  unfoldable pub fit_rows : Measures → ℕ
  unfolding cell_size
  fit_rows m =
      if leb m.client_height 4
      then 2
      else max 2 (cells (m.client_height - 4) (cell_size m m.screen_height m.prev_rows line_height))

  fitted : Window → Measures → Bool → Window
  unfolding fit_cols fit_rows
  fitted win m send_resize =
      if send_resize && (win.has_socket && is_open win.socket)
      then send_shell_resize (call win (resize (fit_cols m) (fit_rows m))) (fit_cols m) (fit_rows m)
      else call win (resize (fit_cols m) (fit_rows m))

  pub fit_shell_terminal : Window → Measures → Bool → Window
  fit_shell_terminal win m send_resize =
      if m.in_document && (ltb 0 (visible_width m) && ltb 0 m.client_height)
      then fitted win m send_resize
      else win

  -- The fit after a change of the window, which asks for the terminal first.
  abbrev pub fit_if_terminal : Window → Measures → Bool → Window
  fit_if_terminal win m send_resize =
      if win.has_terminal then fit_shell_terminal win m send_resize else win
