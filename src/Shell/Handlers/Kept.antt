-- ===== src/Shell/Handlers/Kept.antt =====
-- Each handler keeps the id of its window.
use ms_robot.Shell.Handlers.{
  socket_open, socket_error, socket_close, socket_message, SocketEvent, Grip, resize_by,
}
use ms_robot.Shell.Bounds.{fit-id}
use ms_robot.Base.{
  none, true, false, refl, inl, inr, arith, Str, ℕ, ◌≡◌, Option-cases, Bool, some, Option, ◌∙◌,
}
use ms_robot.Shell.Handlers.{
  toggle_collapsed, on_resize_up, resized, on_data, on_drag_up, on_handle_down, on_drag_move,
  on_socket, Window, on_header_down, ℤ, SocketEvent, socket_message, CellSize, Measures,
  on_resize_move, on_collapse, fit_if_terminal,
}

pub socket-id : (w : Window) (e : SocketEvent) → (on_socket w e).id ≡ w.id
unfolding on_socket
socket-id w socket_open = refl
socket-id w socket_error = refl
socket-id w socket_close = refl
socket-id w (socket_message s) = refl

pub data-id : (w : Window) (s : Str) → (on_data w s).0.id ≡ w.id
unfolding on_data
data-id w s = ground arith

pub header-id : (w : Window) (x y l t : ℤ) → (on_header_down w false x y l t).id ≡ w.id
unfolding on_header_down
header-id w x y l t = refl

pub drag_move-id : (w : Window) (x y : ℤ) → (on_drag_move w x y).id ≡ w.id
unfolding on_drag_move
drag_move-id w x y = ground arith

pub drag_up-id : (w : Window) → (on_drag_up w).id ≡ w.id
unfolding on_drag_up
drag_up-id w = refl

pub handle-id : (w : Window) (x y a b : ℤ) → (on_handle_down w x y a b).id ≡ w.id
unfolding on_handle_down
handle-id w x y a b = refl

toggle-id : (w : Window) (measured : ℤ) → (toggle_collapsed w measured).id ≡ w.id
unfolding toggle_collapsed
toggle-id w measured = ground arith

resized-id : (w : Window) (g : Grip) (x y : ℤ) → (resized w g x y).id ≡ w.id
unfolding resized
resized-id w g x y = refl

module _ (cells : ℕ → CellSize → ℕ) where
  if_terminal-id : (w : Window) (m : Measures) (b : Bool) → (fit_if_terminal cells w m b).id ≡ w.id
  if_terminal-id w m b = ground (arith, fit-id cells w m b)

  pub collapse-id :
      (w : Window) (measured : ℤ) (m : Measures) → (on_collapse cells w measured m).id ≡ w.id
  unfolding on_collapse
  collapse-id w measured m =
      ground (arith, toggle-id w measured, if_terminal-id (toggle_collapsed w measured) m false)

  resize_by-id :
      (w : Window) (x y : ℤ) (m : Measures) (o : Option Grip)
      → (resize_by cells w x y m o).id ≡ w.id
  unfolding resize_by
  resize_by-id w x y m none = refl
  resize_by-id w x y m (some g) = if_terminal-id (resized w g x y) m false ∙ resized-id w g x y

  pub resize_move-id :
      (w : Window) (x y : ℤ) (m : Measures) → (on_resize_move cells w x y m).id ≡ w.id
  unfolding on_resize_move
  resize_move-id w x y m = resize_by-id w x y m w.resizing

  pub resize_up-id : (w : Window) (m : Measures) → (on_resize_up cells w m).id ≡ w.id
  unfolding on_resize_up
  resize_up-id w m = elim (Option-cases w.resizing) [
    | inl e ↦ ground (arith, e)
    | inr (g, e) ↦ ground (arith, e, if_terminal-id (record w { resizing = none }) m true)
  ]
