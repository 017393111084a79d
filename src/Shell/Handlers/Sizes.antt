-- ===== src/Shell/Handlers/Sizes.antt =====
-- The size of a window while it is dragged, and when it is collapsed and unfolded again.
use ms_robot.Base.Int.{◌≤ℤ◌, max_ℤ, ◌+ℤ◌, ◌-ℤ◌}
use ms_robot.Shell.{
  fit_shell_terminal, CellSize, fitted, Window, send_shell_resize, ℤ, Measures, fit_if_terminal,
  pos, px, Grip,
}
use ms_robot.Shell.Handlers.{
  on_collapse, toggle_collapsed, on_resize_move, or_measured, resize_by, resized,
}
use ms_robot.Base.{none, some, false, refl, inl, inr, arith, ℕ, ◌≡◌, Bool, ◌⊎◌, Option}

fit-height :
    (cells : ℕ → CellSize → ℕ) (w : Window) (m : Measures) (b : Bool)
    → ((fit_if_terminal cells w m b).height ≡ w.height)
      × ((fit_if_terminal cells w m b).width ≡ w.width)
      × ((fit_if_terminal cells w m b).collapsed ≡ w.collapsed)
      × ((fit_if_terminal cells w m b).min_height_zero ≡ w.min_height_zero)
unfolding fit_shell_terminal fitted send_shell_resize
fit-height cells w m b = (ground arith, ground arith, ground arith, ground arith)

resize_by-lower :
    (cells : ℕ → CellSize → ℕ) (w : Window) (x y : ℤ) (m : Measures) (o : Option Grip)
    → (resize_by cells w x y m o ≡ w)
      ⊎ ((a : ℤ) × (b : ℤ) × (pos 320 ≤ℤ a)
          × (pos 240 ≤ℤ b)
          × ((resize_by cells w x y m o).width ≡ px a)
          × ((resize_by cells w x y m o).height ≡ px b))
unfolding resize_by resized
resize_by-lower cells w x y m none = inl refl
resize_by-lower cells w x y m (some g) =
    let f = fit-height cells (resized w g x y) m false in
    inr (
      max_ℤ (pos 320) (g.first +ℤ (x -ℤ g.start_x)),
      max_ℤ (pos 240) (g.second +ℤ (y -ℤ g.start_y)),
      ground arith,
      ground arith,
      f.1,
      f.0,
    )

-- However the handle is dragged, a window whose size changes is at least 320 wide and 240 high.
on_resize_move-lower :
    (cells : ℕ → CellSize → ℕ) (w : Window) (x y : ℤ) (m : Measures)
    → (on_resize_move cells w x y m ≡ w)
      ⊎ ((a : ℤ) × (b : ℤ) × (pos 320 ≤ℤ a)
          × (pos 240 ≤ℤ b)
          × ((on_resize_move cells w x y m).width ≡ px a)
          × ((on_resize_move cells w x y m).height ≡ px b))
unfolding on_resize_move
on_resize_move-lower cells w x y m = resize_by-lower cells w x y m w.resizing

-- The window after the two clicks, before its terminal is fitted.
abbrev unfolded_window : Window → ℤ → Window
unfolded_window w h = record w {
  height = or_measured w.height h;
  min_height_zero = false;
  saved_height = some (or_measured w.height h);
  collapsed = false;
}

-- A window that is collapsed and unfolded again has the height that it had, written out in pixels if it
-- had none of its own, and no least height of its own.
on_collapse-unfold :
    (cells : ℕ → CellSize → ℕ) (w : Window) (h h_2 : ℤ) (m m_2 : Measures)
    → w.collapsed ≡ false
    → ((on_collapse cells (on_collapse cells w h m) h_2 m_2).height ≡ or_measured w.height h)
      × ((on_collapse cells (on_collapse cells w h m) h_2 m_2).collapsed ≡ false)
      × ((on_collapse cells (on_collapse cells w h m) h_2 m_2).min_height_zero ≡ false)
unfolding on_collapse toggle_collapsed
on_collapse-unfold cells w h h_2 m m_2 e =
    let f = fit-height cells (unfolded_window w h) m_2 false in rw e (f.0, f.2, f.3)
