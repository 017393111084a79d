-- ===== src/Control/Event.antt =====
-- `parseControlMessage`: the event in a touch or scroll message. Positions become fractions of the
-- source screen.
pub mod Parse
pub mod Read
use ms_robot.Wire.Codes.{message_code, ControlMessageType}
use Prim.Native.Nat.{bit_or}
use ms_robot.Base.{
  ℕ, ◌-◌, List, ◌&&◌, Option, none, some, length, get_or, take, drop, ltb, leb, ◌==◌, if◌then◌else◌,
  ◌<◌, ◌≡◌, arith, true, false, refl, inl, inr, [], ◌∷◌, zero, suc,
}
use ms_robot.Base.Bits.{shl32}
use ms_robot.Base.Int.{ℤ, pos, to_int32}
use ms_robot.Number.{Number}

-- `bytes.slice(from, to)` for 0 ≤ from ≤ to
abbrev pub slice : List ℕ → ℕ → ℕ → List ℕ
slice bytes from to = take (to - from) (drop from bytes)

-- `bytes[i] << k`; a missing byte counts as 0.
abbrev pub byte_at : List ℕ → ℕ → ℕ → ℕ
byte_at bytes i k = shl32 (get_or bytes i 0) k

-- JavaScript shifts by `k % 32`, so the four high bytes fall onto the four low ones.
pub read_int64_be : List ℕ → ℤ
read_int64_be bytes = to_int32 (
    bit_or
      (bit_or
        (bit_or
          (bit_or
            (bit_or (bit_or (bit_or (byte_at bytes 0 56) (byte_at bytes 1 48)) (byte_at bytes 2 40))
              (byte_at bytes 3 32))
            (byte_at bytes 4 24))
          (byte_at bytes 5 16))
        (byte_at bytes 6 8))
      (byte_at bytes 7 0))

unfoldable pub read_int32_be : List ℕ → ℤ
read_int32_be bytes = to_int32 (
    bit_or (bit_or (bit_or (byte_at bytes 0 24) (byte_at bytes 1 16)) (byte_at bytes 2 8))
      (byte_at bytes 3 0))

pub read_int16_be : List ℕ → ℕ
read_int16_be bytes = bit_or (byte_at bytes 0 8) (byte_at bytes 1 0)

-- The event objects. Positions are fractions of the source screen, of type `Num`.
pub data ControlEvent (Num : Type 0) : Type 0 where
  touch :
      (action : ℕ) (pointer_id : ℤ) (relative_x relative_y : Num) (width height : ℕ)
      → ControlEvent Num
  scroll :
      (relative_x relative_y : Num) (width height hscroll vscroll : ℕ) (buttons : ℤ)
      → ControlEvent Num

module _ (F : Number) where
  open F use {Num, of_int, div}

  -- `size > 0 ? v / size : 0`
  pub relative : ℤ → ℕ → Num
  relative v size = if ltb 0 size then div (of_int v) (of_int (pos size)) else of_int (pos 0)

  parse_touch : List ℕ → ControlEvent Num
  parse_touch bytes =
      let width = read_int16_be (slice bytes 17 19) in
      let height = read_int16_be (slice bytes 19 21) in
      touch (get_or bytes 0 0) (read_int64_be (slice bytes 1 9))
        (relative (read_int32_be (slice bytes 9 13)) width)
        (relative (read_int32_be (slice bytes 13 17)) height) width height

  parse_scroll : List ℕ → ControlEvent Num
  parse_scroll bytes =
      let width = read_int16_be (slice bytes 8 10) in
      let height = read_int16_be (slice bytes 10 12) in
      scroll (relative (read_int32_be (slice bytes 0 4)) width)
        (relative (read_int32_be (slice bytes 4 8)) height) width height
        (read_int16_be (slice bytes 12 14)) (read_int16_be (slice bytes 14 16))
        (read_int32_be (slice bytes 16 20))

  pub parse_control_message : ℕ → List ℕ → Option (ControlEvent Num)
  unfolding parse_touch parse_scroll
  parse_control_message message_type bytes =
      if message_type == 0x02 && leb 25 (length bytes)
      then some (parse_touch bytes)
      else if message_type == 0x03 && leb 20 (length bytes)
      then some (parse_scroll bytes)
      else none

  pub parse_control_message-key :
      (bytes : List ℕ)
      → parse_control_message (message_code ControlMessageType.inject_keycode) bytes ≡ none
  unfolding parse_control_message
  parse_control_message-key bytes = refl

  pub relative-pos :
      (x size : ℕ) → 0 < size → relative (pos x) size ≡ div (of_int (pos x)) (of_int (pos size))
  unfolding relative
  relative-pos x size h = ground arith
