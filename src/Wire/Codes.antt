-- ===== src/Wire/Codes.antt =====
-- The constants of assets/web/static/js/control.js.
use ms_robot.Base.{ℕ}

-- `ControlMessageType`
pub data ControlMessageType : Type 0 where
  inject_keycode inject_text inject_touch_event inject_scroll_event : ControlMessageType
  back_or_screen_on expand_notification_panel expand_settings_panel : ControlMessageType
  collapse_panels get_clipboard set_clipboard set_display_power : ControlMessageType
  rotate_device uhid_create uhid_input uhid_destroy : ControlMessageType
  open_hard_keyboard_settings start_app reset_video : ControlMessageType

abbrev pub message_code : ControlMessageType → ℕ
message_code inject_keycode = 0x00
message_code inject_text = 0x01
message_code inject_touch_event = 0x02
message_code inject_scroll_event = 0x03
message_code back_or_screen_on = 0x04
message_code expand_notification_panel = 0x05
message_code expand_settings_panel = 0x06
message_code collapse_panels = 0x07
message_code get_clipboard = 0x08
message_code set_clipboard = 0x09
message_code set_display_power = 0x0A
message_code rotate_device = 0x0B
message_code uhid_create = 0x0C
message_code uhid_input = 0x0D
message_code uhid_destroy = 0x0E
message_code open_hard_keyboard_settings = 0x0F
message_code start_app = 0x10
message_code reset_video = 0x11

-- `KeyCode`
pub data KeyCode : Type 0 where
  back home menu app_switch volume_up volume_down volume_mute power : KeyCode
  enter del space tab : KeyCode

abbrev pub key_code : KeyCode → ℕ
key_code back = 4
key_code home = 3
key_code menu = 82
key_code app_switch = 187
key_code volume_up = 24
key_code volume_down = 25
key_code volume_mute = 164
key_code power = 26
key_code enter = 66
key_code del = 67
key_code space = 62
key_code tab = 61

-- `MotionAction`
pub data MotionAction : Type 0 where
  down up move cancel pointer_down pointer_up : MotionAction

abbrev pub action_code : MotionAction → ℕ
action_code down = 0
action_code up = 1
action_code move = 2
action_code cancel = 3
action_code pointer_down = 5
action_code pointer_up = 6
