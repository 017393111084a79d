-- ===== src/DeviceMessage.antt =====
-- `handleDeviceMessageBuffer` of assets/web/static/js/app.js: messages from a device. `decode` is
-- the browser's `TextDecoder`.
pub mod Frames
use ms_robot.Base.Bits.{shl32}
use ms_robot.Control.Event.{byte_at, slice}
use Prim.Native.Nat.{bit_or}
use ms_robot.Base.Int.{ℤ, pos, to_int32, negsuc, ◌+ℤ◌, ltb_ℤ, residue}
use ms_robot.Base.{
  ℕ, Str, List, take, ◌-◌, Option, drop, length, ◌+◌, none, if◌then◌else◌, ltb, some, ◌∷◌, ◌==◌, [],
  ◌^◌,
}

-- `DeviceMessageType`
pub data DeviceMessageType : Type 0 where
  clipboard ack_clipboard uhid_output : DeviceMessageType

abbrev device_message_code : DeviceMessageType → ℕ
device_message_code clipboard = 0x00
device_message_code ack_clipboard = 0x01
device_message_code uhid_output = 0x02

-- The event that is dispatched on the window.
pub data DeviceEvent : Type 0 where
  device_clipboard : Str → DeviceEvent
  device_clipboard_ack : ℤ → DeviceEvent
  device_uhid_output : List ℕ → DeviceEvent

-- `buffer.slice(from, end)`; a negative end counts from the end of the buffer.
slice_to : List ℕ → ℕ → ℤ → List ℕ
slice_to buffer from (pos end_) = take (end_ - from) (drop from buffer)
slice_to buffer from (negsuc n) = take (length buffer - (n + 1) - from) (drop from buffer)

-- The four bytes of a length, joined as in `readInt32BE`; 128 and more in the first make it negative.
clipboard_length : List ℕ → ℤ
clipboard_length buffer = to_int32 (
    bit_or (bit_or (bit_or (byte_at buffer 1 24) (byte_at buffer 2 16)) (byte_at buffer 3 8))
      (byte_at buffer 4 0))

module _ (decode : List ℕ → Str) where
  on_clipboard : List ℕ → Option DeviceEvent
  on_clipboard buffer =
      let end_ = pos 5 +ℤ clipboard_length buffer in
      if ltb (length buffer) 5
      then none
      else if ltb_ℤ (pos (length buffer)) end_
      then none
      else some (device_clipboard (decode (slice_to buffer 5 end_)))

-- `sequence = (sequence << 8) | byte`, a signed word after each step.
ack_loop : ℤ → List ℕ → ℤ
ack_loop sequence [] = sequence
ack_loop sequence (b ∷ bytes) =
    ack_loop (to_int32 (bit_or (shl32 (residue sequence (2 ^ 32)) 8) b)) bytes

on_ack : List ℕ → Option DeviceEvent
unfolding ack_loop
on_ack buffer =
    if ltb (length buffer) 9
    then none
    else some (device_clipboard_ack (ack_loop (pos 0) (slice buffer 1 9)))

module _ (decode : List ℕ → Str) where
  -- By the type in the first byte; an empty message and an unknown type dispatch nothing.
  pub handle_device_message_buffer : List ℕ → Option DeviceEvent
  unfolding on_clipboard on_ack
  handle_device_message_buffer [] = none
  handle_device_message_buffer (type ∷ rest) =
      if type == device_message_code clipboard
      then on_clipboard decode (type ∷ rest)
      else if type == device_message_code ack_clipboard
      then on_ack (type ∷ rest)
      else if type == device_message_code uhid_output
      then some (device_uhid_output rest)
      else none
