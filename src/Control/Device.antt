-- ===== src/Control/Device.antt =====
-- `DeviceController`: one device's share of an event. `window.ControlCommands` is loaded.
pub mod Relay
use ms_robot.Wire.Bytes.{uint8_array, to_big_endian_bytes}
use ms_robot.Control.Event.{ControlEvent, slice, touch, scroll}
use ms_robot.Number.{Number}
use ms_robot.Base.Int.{ℤ, max_ℤ, pos, eq_ℤ, min_ℤ, sub_ℕ}
use ms_robot.Session.{Connection, ReadyState, Channel, ScreenSize}
use ms_robot.Base.{
  ℕ, Option, Bool, true, if◌then◌else◌, ◌==◌, List, ◌&&◌, false, ◌||◌, some, none, ◌∷◌, ◌+◌, not,
  ◌++◌, ◌/◌,
}

-- `isConnected`: there is a data channel, and it is open.
abbrev is_open : ReadyState → Bool
is_open ReadyState.open_ = true
is_open _ = false

abbrev channel_open : Option Channel → Bool
channel_open none = false
channel_open (some c) = is_open c.ready_state

abbrev pub is_connected : Connection → Bool
is_connected conn = channel_open conn.data_channel

-- `Math.max(0, Math.min(v, size - 1))`
abbrev pub clamp : ℤ → ℕ → ℤ
clamp v size = max_ℤ (pos 0) (min_ℤ v (sub_ℕ size 1))

-- Whether the action is that of a second finger (`POINTER_DOWN`, `POINTER_UP`).
abbrev is_multi_touch : ℕ → Bool
is_multi_touch action = action == 5 || action == 6

module _ (F : Number) where
  open F use {Num, of_int, mul, round}

  -- The target on one axis: the middle for the first pointer of a multi-touch action
  -- (`Math.round(size / 2)`), the scaled position kept within the screen for all else.
  pub touch_target : ℕ → ℤ → Num → ℕ → ℤ
  touch_target action pointer_id rel size =
      if is_multi_touch action && eq_ℤ pointer_id (pos 0)
      then pos ((size + 1) / 2)
      else clamp (round (mul rel (of_int (pos size)))) size

  -- The message of `handleTouchEvent`.
  touch_message : ScreenSize → ℕ → ℤ → Num → Num → ℕ → List ℕ → List ℕ
  touch_message size action pointer_id relative_x relative_y message_type original =
      let target_x = touch_target action pointer_id relative_x size.width in
      let target_y = touch_target action pointer_id relative_y size.height in
      let buttons = if action == 0 || action == 5 || action == 2 then 1 else 0 in
      let new_data = uint8_array (
        action
        ∷ (slice original 1 9
            ++ (to_big_endian_bytes target_x 4
                ++ (to_big_endian_bytes target_y 4
                    ++ (to_big_endian_bytes (pos size.width) 2
                        ++ (to_big_endian_bytes (pos size.height) 2
                            ++ (to_big_endian_bytes (pos 0xFFFF) 2
                                ++ (to_big_endian_bytes (pos 0) 4
                                    ++ to_big_endian_bytes (pos buttons) 4)))))))) in
      uint8_array (message_type ∷ new_data)

  -- The message of `handleScrollEvent`; its position is scaled and not clamped.
  scroll_message : ScreenSize → Num → Num → ℕ → ℕ → ℤ → ℕ → List ℕ
  scroll_message size relative_x relative_y hscroll vscroll buttons message_type =
      let target_x = round (mul relative_x (of_int (pos size.width))) in
      let target_y = round (mul relative_y (of_int (pos size.height))) in
      let new_data = uint8_array (
        to_big_endian_bytes target_x 4
        ++ (to_big_endian_bytes target_y 4
            ++ (to_big_endian_bytes (pos size.width) 2
                ++ (to_big_endian_bytes (pos size.height) 2
                    ++ (to_big_endian_bytes (pos hscroll) 2
                        ++ (to_big_endian_bytes (pos vscroll) 2
                            ++ to_big_endian_bytes buttons 4)))))) in
      uint8_array (message_type ∷ new_data)

  pub event_message : ScreenSize → ControlEvent Num → ℕ → List ℕ → List ℕ
  unfolding touch_message scroll_message
  event_message size (touch action pointer_id rx ry _ _) message_type original =
      touch_message size action pointer_id rx ry message_type original
  event_message size (scroll rx ry _ _ h v buttons) message_type original =
      scroll_message size rx ry h v buttons message_type

  -- `handleEvent`: nothing for a device that is not connected.
  unfoldable pub handle_event :
      Connection → ScreenSize → ControlEvent Num → ℕ → List ℕ → Option (List ℕ)
  handle_event conn size event message_type original =
      if is_connected conn then some (event_message size event message_type original) else none

-- `sendMessage` succeeds on an open channel whose `send` does not raise.
abbrev channel_accepts : Option Channel → Bool
channel_accepts none = false
channel_accepts (some c) = is_open c.ready_state && not c.send_throws

unfoldable pub send_message : Connection → Bool
send_message conn = channel_accepts conn.data_channel
