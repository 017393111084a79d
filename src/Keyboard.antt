-- ===== src/Keyboard.antt =====
-- The global keyboard handling of assets/web/static/js/app.js: a click chooses a shell window or a
-- device, and keys go to what was chosen. A device that is not chosen (`null`) is the empty text.
pub mod Routing
use ms_robot.Control.Device.{is_connected}
use ms_robot.Base.Maps.{get}
use ms_robot.Wire.Message.{Command}
use ms_robot.Wire.Codes.{MotionAction, KeyCode, key_code, action_code}
use ms_robot.Wire.Message.{inject_keycode, inject_text}
use ms_robot.Session.{Page, Connection}
use ms_robot.Base.{
  ℕ, Str, Bool, [], if◌then◌else◌, Option, some, truthy, str_eq, none, codes, or_else, ◌∷◌, false,
  ◌||◌, ◌&&◌, leb, not, ◌-◌, ◌==◌,
}

-- A shell window: whether it has its terminal, and whether its socket is there and open.
pub record Shell : Type 0 where
  pub name : ℕ
  pub has_terminal : Bool
  pub socket_open : Bool

-- `currentActiveDeviceUDID`, `currentActiveShellWindow` and `currentFullscreenDeviceUDID`
pub record Focus : Type 0 where
  pub active_device : Str
  pub active_shell : Option Shell
  pub fullscreen_device : Str

pub data KeyAction : Type 0 where
  key_down key_up key_press : KeyAction

-- A key event; `in_shell`: its target is in a shell window; `editable`: the active element takes text.
pub record Key : Type 0 where
  pub key : Str
  pub ctrl_key : Bool
  pub in_shell : Bool
  pub editable : Bool

-- `e.key && e.key.length === 1`
abbrev single : Str → Option ℕ
single [] = none
single (c ∷ []) = some c
single (c ∷ d ∷ s) = none

-- A character typed into a shell: Ctrl with a letter gives the control character.
shell_char : Bool → ℕ → Str
shell_char ctrl c =
    if ctrl && (leb b'a' c && leb c b'z')
    then (c - 96) ∷ []
    else if ctrl && c == b'@'
    then 0 ∷ []
    else c ∷ []

shell_press : Bool → Option ℕ → Option Str
shell_press ctrl none = none
shell_press ctrl (some c) = some (shell_char ctrl c)

shell_down : Str → Option Str
shell_down key =
    if str_eq key (codes "Enter")
    then some (13 ∷ [])
    else if str_eq key (codes "Backspace")
    then some (127 ∷ [])
    else if str_eq key (codes "Tab")
    then some (9 ∷ [])
    else none

pub key_event_to_shell_data : Key → KeyAction → Option Str
unfolding shell_press shell_down shell_char
key_event_to_shell_data e key_press = shell_press e.ctrl_key (single e.key)
key_event_to_shell_data e key_down = shell_down e.key
key_event_to_shell_data e key_up = none

-- The key code of a key that is no character; others are ignored.
device_key : Str → Option KeyCode
device_key key =
    if str_eq key (codes "Backspace") || str_eq key (codes "Delete")
    then some KeyCode.del
    else if str_eq key (codes "Enter")
    then some KeyCode.enter
    else if str_eq key (codes " ")
    then some KeyCode.space
    else if str_eq key (codes "Tab")
    then some KeyCode.tab
    else none

abbrev motion : KeyAction → MotionAction
motion key_down = MotionAction.down
motion _ = MotionAction.up

keycode_command : Str → KeyAction → Option KeyCode → Option Command
keycode_command device_udid action none = none
keycode_command device_udid action (some k) =
    some (inject_keycode device_udid (key_code k) (action_code (motion action)))

-- A pressed character is sent as text, any other key as a key code.
press_command : Str → Str → Option ℕ → Option Command
unfolding keycode_command
press_command device_udid key none = keycode_command device_udid key_press (device_key key)
press_command device_udid key (some c) = some (inject_text device_udid key)

handle_global_keyboard_event : Str → Key → KeyAction → Option Command
unfolding press_command keycode_command device_key
handle_global_keyboard_event device_udid e key_press =
    press_command device_udid e.key (single e.key)
handle_global_keyboard_event device_udid e action =
    keycode_command device_udid action (device_key e.key)

-- Where a key goes.
pub data Route : Type 0 where
  ignored : Route
  to_shell : ℕ → Str → Route
  to_device : Command → Route

pub shell_route : Shell → Option Str → Route
shell_route shell none = ignored
shell_route shell (some text) = to_shell shell.name text

abbrev open_connection : Option Connection → Bool
open_connection none = false
open_connection (some conn) = is_connected conn

device_route : Option Command → Route
device_route none = ignored
device_route (some c) = to_device c

-- The device's share: only with an open data channel.
on_device : Page → Focus → Key → KeyAction → Route
unfolding device_route
on_device page focus e action =
    if truthy focus.active_device && open_connection (get page.connections focus.active_device)
    then device_route (handle_global_keyboard_event focus.active_device e action)
    else ignored

-- Key down and key press go to a shell with a terminal and an open socket; key up stops at any shell
-- with a terminal.
with_shell : Page → Focus → Key → KeyAction → Option Shell → Route
unfolding shell_route on_device
with_shell page focus e action none = on_device page focus e action
with_shell page focus e key_up (some shell) =
    if shell.has_terminal then ignored else on_device page focus e key_up
with_shell page focus e action (some shell) =
    if shell.has_terminal && shell.socket_open
    then shell_route shell (key_event_to_shell_data e action)
    else on_device page focus e action

pub on_key : Page → Focus → Key → KeyAction → Route
unfolding with_shell
on_key page focus e action =
    if e.in_shell || e.editable then ignored else with_shell page focus e action focus.active_shell

pub on_blur : Focus → Focus
on_blur focus = record focus { active_device = [] }

-- What stands around the target of a click: the shell window, whether the active full-screen mode, and
-- the `data-udid` of the elements that belong to a device.
pub record Click : Type 0 where
  pub shell_window : Option Shell
  pub in_fullscreen : Bool
  pub device_wrapper : Option Str
  pub video_container : Option Str
  pub text_input_panel : Option Str
  pub device_modal : Option Str
  pub input_overlay : Option Str

abbrev first_of : Option Str → Option Str → Option Str
first_of (some u) o = some u
first_of none o = o

abbrev udid_of : Option Str → Str
udid_of none = []
udid_of (some u) = u

-- `panel.dataset.udid || wrapper.dataset.udid`, if the panel is there.
abbrev udid_around : Option Str → Option Str → Str
udid_around none wrapper = []
udid_around (some u) wrapper = or_else u (udid_of wrapper)

-- The device that a click within its elements chooses; the one chosen before, if none has an id.
choose_device : Focus → Click → Option Str → Str
choose_device focus c none =
    if truthy focus.active_device && not (truthy focus.fullscreen_device)
    then []
    else focus.active_device
choose_device focus c (some u) = or_else u (
    or_else (udid_around c.input_overlay c.device_wrapper)
      (or_else (udid_around c.text_input_panel c.device_wrapper) focus.active_device))

abbrev device_element : Click → Option Str
device_element c = first_of c.device_wrapper (
    first_of c.video_container
      (first_of c.text_input_panel (first_of c.device_modal c.input_overlay)))

click_outside : Focus → Click → Focus
unfolding choose_device
click_outside focus c =
    if c.in_fullscreen && truthy focus.fullscreen_device
    then record focus { active_shell = none; active_device = focus.fullscreen_device }
    else record focus {
      active_shell = none;
      active_device = choose_device focus c (device_element c);
    }

click_at : Focus → Click → Option Shell → Focus
unfolding click_outside
click_at focus c none = click_outside focus c
click_at focus c (some shell) = record focus { active_shell = some shell; active_device = [] }

pub on_click : Focus → Click → Focus
unfolding click_at
on_click focus c = click_at focus c c.shell_window
