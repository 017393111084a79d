-- ===== src/Shell/Events.antt =====
-- The events of the shell windows (assets/web/static/js/app.js), in any order.
use ms_robot.Shell.Bounds.{fit-id}
use ms_robot.Shell.Windows.Orderly.{
  IsOrderly, open-IsOrderly, down-IsOrderly, drag-IsOrderly, typed-IsOrderly, close-IsOrderly,
  choose-IsOrderly, change-IsOrderly,
}
use ms_robot.Shell.Handlers.Kept.{
  socket-id, collapse-id, drag_move-id, drag_up-id, handle-id, resize_move-id, resize_up-id,
}
use ms_robot.Shell.Windows.{
  Desk, open_shell_panel, on_window_down, on_drag_start, on_typed, close_shell_window,
  choose_window, on_window,
}
use ms_robot.Base.{false, [], ◌∷◌, Str, Option, ℕ, Bool, ◌≡◌, List}
use ms_robot.Shell.Handlers.{
  on_drag_move, on_drag_up, SocketEvent, on_socket, on_collapse, on_handle_down, on_resize_move,
  on_resize_up,
}
use ms_robot.Shell.{Window, CellSize, Measures, ℤ, fit_shell_terminal}

-- What happens to one window.
pub data WindowEvent : Type 0 where
  socket : SocketEvent → WindowEvent
  collapse : ℤ → Measures → WindowEvent
  drag_move : ℤ → ℤ → WindowEvent
  drag_up : WindowEvent
  handle_down : ℤ → ℤ → ℤ → ℤ → WindowEvent
  resize_move : ℤ → ℤ → Measures → WindowEvent
  resize_up : Measures → WindowEvent
  observed : Measures → WindowEvent

pub data Event : Type 0 where
  opened : Str → Option (ℤ × ℤ) → ℕ → ℕ → Measures → Event
  window_down : ℕ → Bool → Event
  drag_start : ℕ → Bool → ℤ → ℤ → ℤ → ℤ → Event
  typed : ℕ → Str → Event
  closed : ℕ → Event
  pointed_at : ℕ → Event
  in_window : ℕ → WindowEvent → Event

module _ (cells : ℕ → CellSize → ℕ) where
  pub on_window_event : WindowEvent → Window → Window
  on_window_event (socket e) w = on_socket w e
  on_window_event (collapse measured m) w = on_collapse cells w measured m
  on_window_event (drag_move x y) w = on_drag_move w x y
  on_window_event drag_up w = on_drag_up w
  on_window_event (handle_down x y rect_w rect_h) w = on_handle_down w x y rect_w rect_h
  on_window_event (resize_move x y m) w = on_resize_move cells w x y m
  on_window_event (resize_up m) w = on_resize_up cells w m
  on_window_event (observed m) w = fit_shell_terminal cells w m false

  pub on_event : Desk → Event → Desk
  on_event desk (opened udid click iw ih m) = open_shell_panel cells desk udid click iw ih m
  on_event desk (window_down id b) = on_window_down desk id b
  on_event desk (drag_start id b x y l t) = on_drag_start desk id b x y l t
  on_event desk (typed id s) = on_typed desk id s
  on_event desk (closed id) = close_shell_window desk id
  on_event desk (pointed_at id) = choose_window desk id
  on_event desk (in_window id e) = on_window desk id (on_window_event e)

  pub run : Desk → List Event → Desk
  run desk [] = desk
  run desk (e ∷ es) = run (on_event desk e) es

window-id :
    (cells : ℕ → CellSize → ℕ) (e : WindowEvent) (w : Window)
    → (on_window_event cells e w).id ≡ w.id
unfolding on_window_event
window-id cells (socket e) w = socket-id w e
window-id cells (collapse measured m) w = collapse-id cells w measured m
window-id cells (drag_move x y) w = drag_move-id w x y
window-id cells drag_up w = drag_up-id w
window-id cells (handle_down x y rect_w rect_h) w = handle-id w x y rect_w rect_h
window-id cells (resize_move x y m) w = resize_move-id cells w x y m
window-id cells (resize_up m) w = resize_up-id cells w m
window-id cells (observed m) w = fit-id cells w m false

event-IsOrderly :
    (cells : ℕ → CellSize → ℕ) (desk : Desk) (e : Event)
    → IsOrderly desk
    → IsOrderly (on_event cells desk e)
unfolding on_event
event-IsOrderly cells desk (opened udid click iw ih m) ok =
    open-IsOrderly cells desk udid click iw ih m ok
event-IsOrderly cells desk (window_down id b) ok = down-IsOrderly desk id b ok
event-IsOrderly cells desk (drag_start id b x y l t) ok = drag-IsOrderly desk id b x y l t ok
event-IsOrderly cells desk (typed id s) ok = typed-IsOrderly desk id s ok
event-IsOrderly cells desk (closed id) ok = close-IsOrderly desk id ok
event-IsOrderly cells desk (pointed_at id) ok = choose-IsOrderly desk id ok
event-IsOrderly cells desk (in_window id e) ok =
    change-IsOrderly desk id (on_window_event cells e) (λ w. window-id cells e w) ok

-- After any events, the windows have different ids, none above the number of windows opened so far, and
-- the window that gets the keys, if there is one, is in the document.
pub run-IsOrderly :
    (cells : ℕ → CellSize → ℕ) (desk : Desk) (es : List Event)
    → IsOrderly desk
    → IsOrderly (run cells desk es)
unfolding run
run-IsOrderly cells desk [] ok = ok
run-IsOrderly cells desk (e ∷ es) ok =
    run-IsOrderly cells (on_event cells desk e) es (event-IsOrderly cells desk e ok)
