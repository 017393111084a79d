-- ===== src/Shell/Bounds.antt =====
-- Where a window stands, how large it and its terminal are, and what stays of a window in each handler.
use ms_robot.Base.Int.{◌≤ℤ◌, ◌+ℤ◌, ◌-ℤ◌}
use ms_robot.Wire.Bytes.Value.{from_bytes}
use ms_robot.Base.{
  arith, ℕ, Bool, ◌≡◌, none, some, [], ◌∷◌, List, ◌+◌, ◌≤◌, ◌<◌, Option, ◌^◌, if◌then◌else◌, ◌-◌,
  ap, ◌∙◌, ◌==◌, refl, inl, inr, ◌++◌, ◌&&◌, ◌⊎◌, Bool-cases, ltb,
}
use ms_robot.Shell.{
  fitted, send_shell_resize, fit_shell_terminal, CellSize, Window, Measures, window_position,
  set_uint32, resize_frame, clamp_edge, ℤ, pos, fit_cols, fit_rows, resize, is_open, binary,
  visible_width,
}

pub fit-id :
    (cells : ℕ → CellSize → ℕ) (w : Window) (m : Measures) (b : Bool)
    → (fit_shell_terminal cells w m b).id ≡ w.id
unfolding fit_shell_terminal fitted send_shell_resize
fit-id cells w m b = ground arith

clamp_edge-lower : (x : ℤ) (inner : ℕ) (size : ℤ) → pos 8 ≤ℤ clamp_edge x inner size
unfolding clamp_edge
clamp_edge-lower x inner size = ground arith

clamp_edge-upper :
    (x : ℤ) (inner size : ℕ)
    → size + 16 ≤ inner
    → clamp_edge x inner (pos size) +ℤ pos size ≤ℤ pos (inner - 8)
unfolding clamp_edge
clamp_edge-upper x inner size h = ground arith

-- A window opened by a click in a page of at least 656 by 496 stands at least 8 from each edge.
window_position-inside :
    (client_x client_y : ℤ) (inner_width inner_height count : ℕ)
    → 656 ≤ inner_width
    → 496 ≤ inner_height
    → (pos 8 ≤ℤ (window_position (some (client_x, client_y)) inner_width inner_height count).0)
      × ((window_position (some (client_x, client_y)) inner_width inner_height count).0 +ℤ pos 640
          ≤ℤ pos (inner_width - 8))
      × (pos 8 ≤ℤ (window_position (some (client_x, client_y)) inner_width inner_height count).1)
      × ((window_position (some (client_x, client_y)) inner_width inner_height count).1 +ℤ pos 480
          ≤ℤ pos (inner_height - 8))
unfolding window_position
window_position-inside x y inner_width inner_height count w h = (
  clamp_edge-lower (x -ℤ pos 320) inner_width (pos 640),
  clamp_edge-upper (x -ℤ pos 320) inner_width 640 (omega arith),
  clamp_edge-lower (y -ℤ pos 21) inner_height (pos 480),
  clamp_edge-upper (y -ℤ pos 21) inner_height 480 (omega arith),
)

set_uint32-from_bytes : (n : ℕ) → n < 2 ^ 32 → from_bytes 0 (set_uint32 n) ≡ n
unfolding set_uint32 from_bytes
set_uint32-from_bytes n h = omega arith

-- What the back end reads in a frame: the tag 1 and two numbers of four bytes.
abbrev pub read_frame : List ℕ → Option (ℕ × ℕ)
read_frame (tag ∷ a ∷ b ∷ c ∷ d ∷ e ∷ f ∷ g ∷ h ∷ []) =
    if tag == 1
    then some (from_bytes 0 (a ∷ b ∷ c ∷ d ∷ []), from_bytes 0 (e ∷ f ∷ g ∷ h ∷ []))
    else none
read_frame _ = none

-- A frame of the terminal's size of less than 2^32 columns and rows is read as that size.
pub read-resize_frame :
    (cols rows : ℕ)
    → cols < 2 ^ 32
    → rows < 2 ^ 32
    → read_frame (resize_frame cols rows) ≡ some (cols, rows)
unfolding resize_frame set_uint32
read-resize_frame cols rows hc hr =
    ap (λ c. some (c, from_bytes 0 (set_uint32 rows))) (set_uint32-from_bytes cols hc)
    ∙ ap (λ r. some (cols, r)) (set_uint32-from_bytes rows hr)

module _ (cells : ℕ → CellSize → ℕ) where
  fit_cols-lower : (m : Measures) → 2 ≤ fit_cols cells m
  unfolding fit_cols
  fit_cols-lower m = ground arith

  fit_rows-lower : (m : Measures) → 2 ≤ fit_rows cells m
  unfolding fit_rows
  fit_rows-lower m = ground arith

  fitted-calls :
      (w : Window) (m : Measures) (b : Bool)
      → (fitted cells w m b).calls ≡ w.calls ++ resize (fit_cols cells m) (fit_rows cells m) ∷ []
  unfolding fitted send_shell_resize
  fitted-calls w m b = ground arith

  fitted-sent :
      (w : Window) (m : Measures) (b : Bool)
      → (fitted cells w m b).sent ≡ (
          if b && (w.has_socket && is_open w.socket)
          then w.sent ++ binary (resize_frame (fit_cols cells m) (fit_rows cells m)) ∷ []
          else w.sent)
  unfolding fitted send_shell_resize
  fitted-sent w m b = ground arith

  -- A fit leaves the window as it is, or gives the terminal at least two columns and two rows; that size
  -- goes to the back end exactly if it is asked for and the window's socket is there and open.
  pub fit_shell_terminal-size :
      (w : Window) (m : Measures) (b : Bool)
      → (fit_shell_terminal cells w m b ≡ w)
        ⊎ ((cols : ℕ) × (rows : ℕ) × (2 ≤ cols)
            × (2 ≤ rows)
            × ((fit_shell_terminal cells w m b).calls ≡ w.calls ++ resize cols rows ∷ [])
            × ((fit_shell_terminal cells w m b).sent ≡ (
                if b && (w.has_socket && is_open w.socket)
                then w.sent ++ binary (resize_frame cols rows) ∷ []
                else w.sent)))
  unfolding fit_shell_terminal
  fit_shell_terminal-size w m b =
      elim (Bool-cases (m.in_document && (ltb 0 (visible_width m) && ltb 0 m.client_height))) [
        | inl e ↦ rw e (
            inr (
              fit_cols cells m,
              fit_rows cells m,
              fit_cols-lower m,
              fit_rows-lower m,
              fitted-calls w m b,
              fitted-sent w m b,
            ))
        | inr e ↦ rw e (inl refl)
      ]
