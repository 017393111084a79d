-- ===== src/Tests/Control.antt =====
-- Control messages and buttons at concrete inputs.
use ms_robot.Control.Event.{parse_control_message}
use mathlib.Core.Option
use ms_robot.Control.Device.Relay.{touch_target_bounds, relay-inject_touch_event}
use ms_robot.Base.Int.{negsuc, pos}
use ms_robot.Control.Actions.Sends.{
  all_targets, handle_control_action-volume, all_str, handle_control_action-devices, key_message,
  repeated,
}
use ms_robot.Base.Maps.{get}
use ms_robot.Identity.{
  get_device_id_for_api_udid, find_wrapper_by_api_udid, get_api_udid_for_card, get_api_udid,
}
use ms_robot.Control.Device.{touch_target, event_message}
use ms_robot.Session.{get_device_screen_size, Page}
use ms_robot.Control.Send.{send_control_message, get_selected_connected_devices, selectable}
use ms_robot.Base.{◌≡◌, ℕ, Str, codes, some, [], false, refl, true, ◌∷◌, ◌<◌, arith}
use ms_robot.Tests.Data.{page, plain_page}
use ms_robot.Tests.Fractions.{fractions, fractions-IsAccurate}
use ms_robot.Control.Actions.{back, mute, action_key, handle_control_action}
use ms_robot.Wire.Codes.{KeyCode}
use ms_robot.Wire.Message.{inject_keycode, inject_touch_event}
use ms_robot.Control.Send.Targets.{
  devices-send_control_message, devices, filter_str, accepts, targets, is_synced, selected_targets,
  can_send, each,
}

abbrev phone_udid : Str
phone_udid = codes "p:1@e"

phone_size : get_device_screen_size page phone_udid ≡ record { width = 720; height = 1600 }
unfolding get_device_screen_size get
phone_size = refl

relay-inject_touch_event_example :
    Option.map
      (λ event.
        event_message fractions
          (get_device_screen_size page phone_udid)
          event
          2
          (inject_touch_event page phone_udid (pos 5) (pos 6) 0 (negsuc 0)).payload)
      (parse_control_message fractions 2
        (inject_touch_event page phone_udid (pos 5) (pos 6) 0 (negsuc 0)).payload)
    ≡ some (2 ∷ (inject_touch_event page phone_udid (pos 5) (pos 6) 0 (negsuc 0)).payload)
relay-inject_touch_event_example =
    relay-inject_touch_event fractions fractions-IsAccurate page phone_udid 5 6 0 (negsuc 0)
      (omega arith) refl (rw phone_size (omega arith)) (rw phone_size (omega arith))
      (rw phone_size (omega arith)) (rw phone_size (omega arith))

touch_target_bounds_example :
    (n : ℕ) × (touch_target fractions 0 (negsuc 0) (9, 2) 720 ≡ pos n) × (n < 720)
touch_target_bounds_example = touch_target_bounds fractions 0 (negsuc 0) (9, 2) 720 (omega arith)

devices-send_control_message_example :
    devices (send_control_message fractions page (inject_keycode phone_udid 4 0)).sent
    ≡ filter_str (accepts page) (targets page (inject_keycode phone_udid 4 0).device_udid)
devices-send_control_message_example =
    devices-send_control_message fractions page (inject_keycode phone_udid 4 0)

back_key : action_key plain_page phone_udid back ≡ some (KeyCode.back, phone_udid ∷ [])
unfolding action_key
back_key = refl

handle_control_action-devices_example :
    ((handle_control_action fractions plain_page phone_udid back).0
      ≡ each
          (key_message KeyCode.back 0)
          (filter_str (accepts plain_page) (all_targets plain_page (phone_udid ∷ []))))
    × ((handle_control_action fractions plain_page phone_udid back).1
        ≡ each
            (key_message KeyCode.back 1)
            (filter_str (accepts plain_page) (all_targets plain_page (phone_udid ∷ []))))
handle_control_action-devices_example =
    handle_control_action-devices fractions plain_page phone_udid back KeyCode.back
      (phone_udid ∷ []) refl back_key

phone-is_synced : is_synced page phone_udid ≡ true
unfolding get_selected_connected_devices selectable get_device_id_for_api_udid
    find_wrapper_by_api_udid get_api_udid_for_card get_api_udid get
phone-is_synced = refl

all-is_synced : all_str (is_synced page) (selected_targets page) ≡ true
unfolding get_selected_connected_devices selectable get_device_id_for_api_udid
    find_wrapper_by_api_udid get_api_udid_for_card get_api_udid get
all-is_synced = refl

handle_control_action-volume_example :
    ((handle_control_action fractions page phone_udid mute).0
      ≡ each
          (key_message KeyCode.volume_mute 0)
          (repeated (selected_targets page) (filter_str (accepts page) (selected_targets page))))
    × ((handle_control_action fractions page phone_udid mute).1
        ≡ each
            (key_message KeyCode.volume_mute 1)
            (repeated (selected_targets page) (filter_str (accepts page) (selected_targets page))))
handle_control_action-volume_example =
    handle_control_action-volume fractions page phone_udid mute KeyCode.volume_mute refl
      phone-is_synced all-is_synced

-- Synchronous operation with no card.
abbrev empty_page : Page
empty_page = record page { cards = [] }

empty-can_send : can_send empty_page ≡ false
unfolding get_selected_connected_devices
empty-can_send = refl

empty-back_key : action_key empty_page phone_udid back ≡ some (KeyCode.back, phone_udid ∷ [])
unfolding action_key
empty-back_key = refl
