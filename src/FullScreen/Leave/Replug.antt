-- ===== src/FullScreen/Leave/Replug.antt =====
-- A device that is plugged in again while it is shown: the id on the full screen is out of date.
use ms_robot.FullScreen.Leave.{exit-unfound}
use ms_robot.Status.Renamed.{names_only, update_device_status-find}
use ms_robot.Status.{update_device_status, new_api_udid}
use ms_robot.Identity.{Device, find_wrappers_by_serial}
use ms_robot.Base.{none, some, true, false, [], ◌∷◌, Str, ◌≡◌, str_eq, or_else}
use ms_robot.Session.{Card}
use ms_robot.FullScreen.{Screen, exit_fullscreen_mode, is_bar, get}

-- The screen after a status message.
abbrev pub updated : Screen → Str → Device → Screen
updated s udid device = record s { page = (update_device_status s.page udid device).0 }

-- A device on the full screen whose serial has one card loses its panel under the picture when it comes
-- back under another apiUdid and the full screen is left: the panel is in the document no more, and the
-- panels in the header stay in the header.
pub exit-replug :
    (s : Screen) (udid u k : Str) (device : Device) (w : Card)
    → s.current ≡ some u
    → is_bar (get s.bottoms k) ≡ true
    → find_wrappers_by_serial s.page.cards udid ≡ w ∷ []
    → names_only s.page.registry w.device_id u s.page.cards ≡ true
    → str_eq (or_else (new_api_udid device w) w.device_id) u ≡ false
    → (get (exit_fullscreen_mode (updated s udid device)).bottoms k ≡ none)
      × ((exit_fullscreen_mode (updated s udid device)).rights ≡ s.rights)
exit-replug s udid u k device w c b one only new =
    exit-unfound (updated s udid device) u k c
      (update_device_status-find s.page udid u device w one only new) b
