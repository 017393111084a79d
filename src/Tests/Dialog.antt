-- ===== src/Tests/Dialog.antt =====
-- The dialogs and the monitor of a connection at concrete inputs.
use ms_robot.Stream.Monitor.{start_web_rtc_status_monitor}
use ms_robot.Base.{[], ◌∷◌, codes, ◌+◌, List, ◌≤◌}
use ms_robot.Dialog
use ms_robot.Stream.Monitor
use ms_robot.Dialog.Once.{run-answers, times_shown, times_answered, no_dialogs}
use ms_robot.Tests.FullScreen.{at_home}

-- The dialog of the phone is confirmed, and a second click finds it gone.
abbrev dialog_events : List Dialog.Event
dialog_events =
    Dialog.Event.show at_home (codes "p:1@e")
    ∷ Dialog.Event.click 0 Dialog.confirm_button
    ∷ Dialog.Event.click 0 Dialog.overlay
    ∷ []

run-answers_example :
    times_shown (Dialog.run no_dialogs dialog_events).shown 0
      + times_answered (Dialog.run no_dialogs dialog_events).answers 0
    ≤ 1
run-answers_example = run-answers dialog_events 0

abbrev no_video_report : Monitor.Event
no_video_report =
    Monitor.Event.report
      (record { connection_state = codes "connected"; ice_connection_state = [] }) 6000 []
