-- ===== src/Wire/Bytes.antt =====
-- `toBigEndianBytes` of assets/web/static/js/control.js. A `Uint8Array` is a list of numbers.
pub mod Value
use ms_robot.Base.{ℕ, zero, suc, ◌*◌, ◌^◌, ◌%◌, List, [], ◌∷◌, map, if◌then◌else◌}
use ms_robot.Base.Int.{ℤ, pos, ◌+ℤ◌, ltb_ℤ, low_byte, shift_byte}

-- `new Uint8Array([...])` keeps the low 8 bits of each number.
unfoldable pub uint8_array : List ℕ → List ℕ
uint8_array = map (λ b. b % 256)

-- The loop from the last byte to the first: `bytes[i] = value & 0xFF; value = value >> 8`.
-- The list holds the bytes behind `i`.
bytes_loop : ℕ → ℤ → List ℕ → List ℕ
bytes_loop zero value bytes = bytes
bytes_loop (suc i) value bytes = bytes_loop i (shift_byte value) (low_byte value ∷ bytes)

-- A negative value is first raised by `maxValue` = 2^(8n).
raise_negative : ℤ → ℕ → ℤ
raise_negative value max_value = if ltb_ℤ value (pos 0) then pos max_value +ℤ value else value

unfoldable pub to_big_endian_bytes : ℤ → ℕ → List ℕ
unfolding bytes_loop raise_negative
to_big_endian_bytes value byte_length =
    bytes_loop byte_length (raise_negative value (2 ^ (byte_length * 8))) []
