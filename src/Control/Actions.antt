-- ===== src/Control/Actions.antt =====
-- The buttons of the control bar: `handleControlAction` and the `execute…Action` functions of
-- assets/web/static/js/app.js.
pub mod Sends
use ms_robot.Identity.{get_device_id_for_api_udid, get_api_udid}
use ms_robot.Control.Send.{
  get_selected_connected_devices, send_control_message, includes, filter_truthy,
}
use ms_robot.Session.{Page}
use ms_robot.Base.{
  Str, Option, List, ◌∷◌, ℕ, some, if◌then◌else◌, [], ◌++◌, none, false, ◌&&◌, codes, map, true,
}
use ms_robot.Number.{Number}
use ms_robot.Wire.Codes.{KeyCode, key_code, MotionAction, action_code}
use ms_robot.Wire.Message.{
  Command, inject_keycode, rotate_device, reset_video as reset_command, expand_notification_panel,
  expand_settings_panel, collapse_panels, set_display_power,
}

-- The `action` texts. The last three send no command: they ask the back end or open a panel.
pub data Action : Type 0 where
  back home menu power volume_up volume_down mute rotate reset_video : Action
  notification_panel settings_panel collapse screen_off screen_on : Action
  rotate_view audio_toggle text_input_panel : Action

abbrev pub press : KeyCode → Str → Command
press k udid = inject_keycode udid (key_code k) (action_code MotionAction.down)

abbrev pub release : KeyCode → Str → Command
release k udid = inject_keycode udid (key_code k) (action_code MotionAction.up)

-- `targetDevices` of the volume and mute buttons.
pub target_devices : Page → Str → List Str
target_devices page udid =
    let selected = get_selected_connected_devices page in
    if page.sync_enabled && includes selected (get_device_id_for_api_udid page udid)
    then filter_truthy (map (get_api_udid page.registry) selected)
    else udid ∷ []

-- The key that a button presses, and on which devices.
unfoldable pub action_key : Page → Str → Action → Option (KeyCode × List Str)
action_key page udid back = some (KeyCode.back, udid ∷ [])
action_key page udid home = some (KeyCode.home, udid ∷ [])
action_key page udid menu = some (KeyCode.app_switch, udid ∷ [])
action_key page udid power = some (KeyCode.power, udid ∷ [])
action_key page udid volume_up = some (KeyCode.volume_up, target_devices page udid)
action_key page udid volume_down = some (KeyCode.volume_down, target_devices page udid)
action_key page udid mute = some (KeyCode.volume_mute, target_devices page udid)
action_key page udid _ = none

-- The command of a button that presses no key.
abbrev action_command : Str → Action → List Command
action_command udid rotate = rotate_device udid ∷ []
action_command udid reset_video = reset_command udid ∷ []
action_command udid notification_panel = expand_notification_panel udid ∷ []
action_command udid settings_panel = expand_settings_panel udid ∷ []
action_command udid collapse = collapse_panels udid ∷ []
action_command udid screen_off = set_display_power udid false (some (codes "屏幕已关闭")) ∷ []
action_command udid screen_on = set_display_power udid true (some (codes "屏幕已开启")) ∷ []
action_command udid _ = []

-- What a click sends at once, and what it sends 50 ms later: the keys it pressed are released.
at_once : Page → Str → Action → List Command
at_once page udid action = elim (action_key page udid action) [
  | none ↦ action_command udid action
  | some k ↦ map (press k.0) k.1
]

after_50_ms : Page → Str → Action → List Command
after_50_ms page udid action = elim (action_key page udid action) [
  | none ↦ []
  | some k ↦ map (release k.0) k.1
]

module _ (F : Number) where
  -- Commands sent one after the other, each in the page that the one before leaves.
  send_all : Page → List Command → Page × List (Str × List ℕ)
  send_all page [] = (page, [])
  send_all page (c ∷ cs) =
      let o = send_control_message F page c in
      let rest = send_all o.page cs in (rest.0, o.sent ++ rest.1)

  -- Both halves of a click.
  pub handle_control_action : Page → Str → Action → List (Str × List ℕ) × List (Str × List ℕ)
  handle_control_action page udid action =
      let first = send_all page (at_once page udid action) in
      let second = send_all first.0 (after_50_ms page udid action) in (first.1, second.1)
