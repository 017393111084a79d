-- ===== src/Tests/Shell.antt =====
-- The shell windows at concrete inputs.
use ms_robot.Shell.Windows.Raised.{topmost, bring_to_front-Perm}
use ms_robot.Base.Int.{pos}
use ms_robot.Shell.Handlers.{on_handle_down}
use ms_robot.Shell.Windows.Orderly.{IsOrderly}
use ms_robot.Base.{
  none, some, true, false, refl, [], ◌∷◌, arith, codes, ◌≡◌, List, ℕ, ◌⊎◌, ◌/◌, ◌≤◌, ◌*◌,
}
use ms_robot.Shell.{
  Window, Measures, CellSize, Length, resize_frame, fit_shell_terminal, resize, binary,
}
use ms_robot.Shell.Windows.{Desk, new_window, bring_shell_window_to_front, find_window}
use ms_robot.Shell.Events.{run, Event, run-IsOrderly}
use mathlib.Core.List.{Perm}
use ms_robot.Shell.Bounds.{read-resize_frame, fit_shell_terminal-size, read_frame}
use ms_robot.Session.{ReadyState}

-- The quotient of whole numbers, with a cell of at least one pixel.
abbrev cells : ℕ → CellSize → ℕ
cells w (CellSize.whole n) = w / n
cells w (CellSize.share n d) = w * d / n

abbrev measures : Measures
measures = record {
  in_document = true;
  client_width = 640;
  viewport_width = 630;
  client_height = 440;
  measured_width = 8;
  screen_width = 560;
  screen_height = 432;
  prev_cols = 80;
  prev_rows = 24;
  has_screen = true;
}

abbrev first_window : Window
first_window = record (new_window 1 (codes "p:1@e") (pos 80, pos 60)) {
  socket = ReadyState.open_;
  height = Length.px (pos 500);
}

abbrev second_window : Window
second_window = new_window 2 (codes "t:2@e") (pos 104, pos 84)

abbrev desk : Desk
desk = record {
  count = 2;
  windows = first_window ∷ second_window ∷ [];
  active = some 1;
  closed = [];
}

read-resize_frame_example : read_frame (resize_frame 300 24) ≡ some (300, 24)
read-resize_frame_example = read-resize_frame 300 24 (omega arith) (omega arith)

fit_shell_terminal-size_example :
    (fit_shell_terminal cells first_window measures true ≡ first_window)
    ⊎ ((cols : ℕ) × (rows : ℕ) × (2 ≤ cols)
        × (2 ≤ rows)
        × ((fit_shell_terminal cells first_window measures true).calls ≡ resize cols rows ∷ [])
        × ((fit_shell_terminal cells first_window measures true).sent
            ≡ binary (resize_frame cols rows) ∷ []))
fit_shell_terminal-size_example = fit_shell_terminal-size cells first_window measures true

abbrev dragged : Window
dragged = on_handle_down first_window (pos 700) (pos 500) (pos 640) (pos 480)

bring_to_front-Perm_example :
    Perm (bring_shell_window_to_front desk 1).windows desk.windows
    × (topmost (bring_shell_window_to_front desk 1).windows ≡ some first_window)
unfolding find_window
bring_to_front-Perm_example = bring_to_front-Perm desk 1 first_window refl refl

desk-IsOrderly : IsOrderly desk
desk-IsOrderly = record { different = refl; counted = refl; there = refl }

abbrev events : List Event
events =
    Event.opened (codes "p:1@e") none 1280 720 measures
    ∷ Event.pointed_at 3
    ∷ Event.window_down 1 false
    ∷ Event.closed 3
    ∷ []

run-IsOrderly_example : IsOrderly (run cells desk events)
run-IsOrderly_example = run-IsOrderly cells desk events desk-IsOrderly
