-- ===== src/Wire/Message.antt =====
-- The commands of assets/web/static/js/control.js. Each hands a type and a payload to
-- `sendControlMessage`; the times and the float arithmetic they use are arguments.
pub mod Layout
pub mod Payload
use ms_robot.Base.{
  ℕ, ◌==◌, List, [], ◌∷◌, ◌++◌, Str, Bool, ◌||◌, Option, none, some, length, codes, if◌then◌else◌,
}
use ms_robot.Base.Int.{ℤ, pos, negsuc, min_ℤ, max_ℤ, ltb_ℤ, ◌+ℤ◌}
use ms_robot.Number.{Number}
use ms_robot.Session.{Page, get_device_screen_size}
use ms_robot.Wire.Bytes.{to_big_endian_bytes, uint8_array}
use ms_robot.Wire.Codes.{ControlMessageType, message_code, MotionAction, action_code}
use ms_robot.Wire.Text.{string_to_utf8_bytes}

-- The arguments of `sendControlMessage`.
pub record Command : Type 0 where
  pub device_udid : Str
  pub message_type : ℕ
  pub payload : List ℕ
  pub toast : Option Str

abbrev command : Str → ControlMessageType → List ℕ → Command
command device_udid type payload = record {
  device_udid = device_udid;
  message_type = message_code type;
  payload = payload;
  toast = none;
}

unfoldable pub inject_keycode : Str → ℕ → ℕ → Command
inject_keycode device_udid keycode action = command device_udid ControlMessageType.inject_keycode (
    uint8_array (
      action
      ∷ (to_big_endian_bytes (pos keycode) 4
          ++ (to_big_endian_bytes (pos 0) 4 ++ to_big_endian_bytes (pos 0) 4))))

pub inject_text : Str → Str → Command
inject_text device_udid text =
    let text_bytes = string_to_utf8_bytes text in
    command device_udid ControlMessageType.inject_text
      (uint8_array (to_big_endian_bytes (pos (length text_bytes)) 4 ++ text_bytes))

-- 1 while a finger is down or moves.
abbrev pub touch_buttons : ℕ → ℕ
touch_buttons action =
    if action == action_code MotionAction.down
      || action == action_code MotionAction.pointer_down
      || action == action_code MotionAction.move
    then 1
    else 0

unfoldable pub inject_touch_event : Page → Str → ℤ → ℤ → ℕ → ℤ → Command
inject_touch_event page device_udid x y action pointer_id =
    let size = get_device_screen_size page device_udid in
    command device_udid ControlMessageType.inject_touch_event (
      uint8_array (
        action
        ∷ (to_big_endian_bytes pointer_id 8
            ++ (to_big_endian_bytes x 4
                ++ (to_big_endian_bytes y 4
                    ++ (to_big_endian_bytes (pos size.width) 2
                        ++ (to_big_endian_bytes (pos size.height) 2
                            ++ (to_big_endian_bytes (pos 0xFFFF) 2
                                ++ (to_big_endian_bytes (pos 0) 4
                                    ++ to_big_endian_bytes (pos (touch_buttons action)) 4)))))))))

-- `value < 0 ? 0x10000 + value : value` of the value clamped to an int16.
pub scroll_u16 : ℤ → ℤ
scroll_u16 fixed =
    let value = max_ℤ (negsuc 0x7FFF) (min_ℤ (pos 0x7FFF) fixed) in
    if ltb_ℤ value (pos 0) then pos 0x1_0000 +ℤ value else value

-- The layout of a scroll event.
scroll_payload : ℤ → ℤ → ℕ → ℕ → ℤ → ℤ → ℤ → List ℕ
scroll_payload x y width height hscroll vscroll buttons = uint8_array (
    to_big_endian_bytes x 4
    ++ (to_big_endian_bytes y 4
        ++ (to_big_endian_bytes (pos width) 2
            ++ (to_big_endian_bytes (pos height) 2
                ++ (to_big_endian_bytes hscroll 2
                    ++ (to_big_endian_bytes vscroll 2 ++ to_big_endian_bytes buttons 4))))))

module _ (F : Number) where
  open F use {Num, of_int, mul, div, less, round}

  -- Scroll values in -16, …, 16 as fixed-point numbers: `Math.round(clamp(s / 16) * 0x8000)`.
  scroll_fixed : Num → ℤ
  scroll_fixed s =
      let t = div s (of_int (pos 16)) in
      let low = if less (of_int (pos 1)) t then of_int (pos 1) else t in
      let norm = if less low (of_int (negsuc 0)) then of_int (negsuc 0) else low in
      round (mul norm (of_int (pos 0x8000)))

  abbrev pub inject_scroll_event : Page → Str → ℤ → ℤ → Num → Num → Command
  unfolding scroll_payload scroll_u16 scroll_fixed
  inject_scroll_event page device_udid x y hscroll vscroll =
      let size = get_device_screen_size page device_udid in
      command device_udid ControlMessageType.inject_scroll_event (
        scroll_payload x y size.width size.height (scroll_u16 (scroll_fixed hscroll))
          (scroll_u16 (scroll_fixed vscroll)) (pos 0))

abbrev pub back_or_screen_on : Str → ℕ → Command
back_or_screen_on device_udid action =
    command device_udid ControlMessageType.back_or_screen_on (uint8_array (action ∷ []))

abbrev pub expand_notification_panel : Str → Command
expand_notification_panel device_udid =
    command device_udid ControlMessageType.expand_notification_panel []

abbrev pub expand_settings_panel : Str → Command
expand_settings_panel device_udid = command device_udid ControlMessageType.expand_settings_panel []

abbrev pub collapse_panels : Str → Command
collapse_panels device_udid = command device_udid ControlMessageType.collapse_panels []

abbrev pub get_clipboard : Str → ℕ → Command
get_clipboard device_udid copy_key =
    command device_udid ControlMessageType.get_clipboard (uint8_array (copy_key ∷ []))

-- `now` is `Date.now()`.
pub set_clipboard : ℕ → Str → Str → Bool → Command
set_clipboard now device_udid text paste =
    let text_bytes = string_to_utf8_bytes text in
    command device_udid ControlMessageType.set_clipboard (
      uint8_array (
        to_big_endian_bytes (pos now) 8
        ++ ((if paste then 1 else 0)
            ∷ (to_big_endian_bytes (pos (length text_bytes)) 4 ++ text_bytes))))

abbrev pub set_display_power : Str → Bool → Option Str → Command
set_display_power device_udid on toast = record {
  device_udid = device_udid;
  message_type = message_code ControlMessageType.set_display_power;
  payload = uint8_array ((if on then 1 else 0) ∷ []);
  toast = toast;
}

-- The toast says that the command to rotate was sent.
abbrev pub rotate_device : Str → Command
rotate_device device_udid = record {
  device_udid = device_udid;
  message_type = message_code ControlMessageType.rotate_device;
  payload = [];
  toast = some (codes "已发送旋转指令");
}

pub create_uhid : Str → ℕ → ℕ → ℕ → Str → List ℕ → Command
create_uhid device_udid id vendor_id product_id name report_desc =
    let name_bytes = string_to_utf8_bytes name in
    let report_desc_bytes = uint8_array report_desc in
    command device_udid ControlMessageType.uhid_create (
      uint8_array (
        to_big_endian_bytes (pos id) 2
        ++ (to_big_endian_bytes (pos vendor_id) 2
            ++ (to_big_endian_bytes (pos product_id) 2
                ++ (to_big_endian_bytes (pos (length name_bytes)) 1
                    ++ (name_bytes
                        ++ (to_big_endian_bytes (pos (length report_desc_bytes)) 1
                            ++ report_desc_bytes)))))))

pub uhid_input : Str → ℕ → List ℕ → Command
uhid_input device_udid id input =
    let input_data = uint8_array input in
    command device_udid ControlMessageType.uhid_input (
      uint8_array (
        to_big_endian_bytes (pos id) 2
        ++ (to_big_endian_bytes (pos (length input_data)) 2 ++ input_data)))

abbrev destroy_uhid : Str → ℕ → Command
destroy_uhid device_udid id =
    command device_udid ControlMessageType.uhid_destroy (to_big_endian_bytes (pos id) 2)

abbrev pub open_hard_keyboard_settings : Str → Command
open_hard_keyboard_settings device_udid =
    command device_udid ControlMessageType.open_hard_keyboard_settings []

pub start_app : Str → Str → Command
start_app device_udid app_name =
    let app_bytes = string_to_utf8_bytes app_name in
    command device_udid ControlMessageType.start_app
      (uint8_array (to_big_endian_bytes (pos (length app_bytes)) 1 ++ app_bytes))

abbrev pub reset_video : Str → Command
reset_video device_udid = command device_udid ControlMessageType.reset_video []
