-- ===== src/Control/Event/Parse.antt =====
-- Parsing the payloads of touch and scroll commands.
use ms_robot.Wire.Message.Payload.{touch_fields}
use ms_robot.Base.Int.{ℤ, pos}
use ms_robot.Number.{Number}
use ms_robot.Wire.Bytes.{to_big_endian_bytes}
use ms_robot.Control.Event.{
  parse_control_message, touch, read_int64_be, relative, read_int32_be, read_int16_be,
}
use ms_robot.Base.{ℕ, ◌≡◌, some, refl}

-- A touch payload is taken apart into its fields.
pub parse-touch_fields :
    (F : Number) (action : ℕ) (pointer x y : ℤ) (width height buttons : ℕ)
    → parse_control_message F 2
        (touch_fields action (to_big_endian_bytes pointer 8) x y width height buttons)
      ≡ some (
          touch action
            (read_int64_be (to_big_endian_bytes pointer 8))
            (relative F
              (read_int32_be (to_big_endian_bytes x 4))
              (read_int16_be (to_big_endian_bytes (pos width) 2)))
            (relative F
              (read_int32_be (to_big_endian_bytes y 4))
              (read_int16_be (to_big_endian_bytes (pos height) 2)))
            (read_int16_be (to_big_endian_bytes (pos width) 2))
            (read_int16_be (to_big_endian_bytes (pos height) 2)))
unfolding parse_control_message to_big_endian_bytes
parse-touch_fields F action pointer x y width height buttons = refl
