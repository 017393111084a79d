-- ===== src/Tests/Wire.antt =====
-- The wire format at concrete inputs.
use Prim.Native.Nat.{bit_or}
use ms_robot.Base.Int.{to_int32}
use ms_robot.Base.{take, drop, List, ℕ}
use ms_robot.Control.Event.Read.{read_int64_be-eq_zero}
use ms_robot.Base.Maps.{get}
use ms_robot.Wire.VarInt.{read_var_int, encode_var_int, read-encode_var_int}
use ms_robot.Wire.Fields.{read_fields}
use ms_robot.Session.{get_device_screen_size}
use ms_robot.Control.Event.{read_int64_be}
use ms_robot.Base.Int.{residue, negsuc, pos}
use ms_robot.Wire.Text.{string_to_utf8_bytes}
use ms_robot.Wire.Text.Bounds.{IsUtf16}
use ms_robot.Wire.Bytes.Value.{from_bytes}
use ms_robot.Base.{codes, arith, ◌^◌, ◌++◌, ◌∷◌, ◌≡◌, ◌<◌, [], length, true, some, ◌↔◌, ◌%◌, refl}
use ms_robot.Tests.Data.{page}
use ms_robot.Wire.Message.Layout.{
  read-inject_keycode, read-inject_text, read-set_clipboard, read-start_app, read-create_uhid,
  read-uhid_input, to_int16-scroll_u16, to_int16, clamp_int16,
}
use ms_robot.Wire.Message.{
  inject_keycode, inject_text, scroll_u16, create_uhid, uhid_input, set_clipboard, start_app,
}

short : IsUtf16 (codes "ab")
short = (omega arith, (omega arith, tt))

two_bytes : length (string_to_utf8_bytes (codes "ab")) < 2 ^ 32
unfolding string_to_utf8_bytes
two_bytes = omega arith

phone_width : (get_device_screen_size page (codes "p:1@e")).width < 2 ^ 16
unfolding get_device_screen_size get
phone_width = omega arith

phone_height : (get_device_screen_size page (codes "p:1@e")).height < 2 ^ 16
unfolding get_device_screen_size get
phone_height = omega arith

read-encode_var_int_example :
    read_var_int (encode_var_int (pos 300) ++ 7 ∷ []) ≡ some (300 % 2 ^ 32, 7 ∷ [])
read-encode_var_int_example = read-encode_var_int 300 (7 ∷ [])

read-inject_keycode_example :
    read_fields (1 ∷ 4 ∷ 4 ∷ 4 ∷ []) (inject_keycode (codes "p") 187 1).payload
    ≡ (1 ∷ 187 ∷ 0 ∷ 0 ∷ [], [])
read-inject_keycode_example = read-inject_keycode (codes "p") 187 1 (omega arith) (omega arith)

read-inject_text_example :
    read_fields (4 ∷ []) (inject_text (codes "p") (codes "ab")).payload
    ≡ (length (string_to_utf8_bytes (codes "ab")) ∷ [], string_to_utf8_bytes (codes "ab"))
read-inject_text_example = read-inject_text (codes "p") (codes "ab") short two_bytes

read-set_clipboard_example :
    read_fields (8 ∷ 1 ∷ 4 ∷ []) (set_clipboard 1700000000000 (codes "p") (codes "ab") true).payload
    ≡ (
      1700000000000 ∷ 1 ∷ length (string_to_utf8_bytes (codes "ab")) ∷ [],
      string_to_utf8_bytes (codes "ab"),
    )
read-set_clipboard_example =
    read-set_clipboard 1700000000000 (codes "p") (codes "ab") true (omega arith) short two_bytes

read-start_app_example :
    read_fields (1 ∷ []) (start_app (codes "p") (codes "ab")).payload
    ≡ (length (string_to_utf8_bytes (codes "ab")) % 256 ∷ [], string_to_utf8_bytes (codes "ab"))
read-start_app_example = read-start_app (codes "p") (codes "ab") short

read-create_uhid_example :
    read_fields (2 ∷ 2 ∷ 2 ∷ 1 ∷ []) (create_uhid (codes "p") 1 2 3 (codes "ab") (5 ∷ [])).payload
    ≡ (
      1 ∷ 2 ∷ 3 ∷ length (string_to_utf8_bytes (codes "ab")) % 256 ∷ [],
      string_to_utf8_bytes (codes "ab") ++ (1 % 256) ∷ 5 ∷ [],
    )
read-create_uhid_example =
    read-create_uhid (codes "p") 1 2 3 (codes "ab") (5 ∷ []) (omega arith) (omega arith)
      (omega arith) short (omega arith, tt)

read-uhid_input_example :
    read_fields (2 ∷ 2 ∷ []) (uhid_input (codes "p") 1 (5 ∷ [])).payload ≡ (1 ∷ 1 ∷ [], 5 ∷ [])
read-uhid_input_example =
    read-uhid_input (codes "p") 1 (5 ∷ []) (omega arith) (omega arith, tt) (omega arith)

to_int16-scroll_u16_example :
    to_int16 (residue (scroll_u16 (negsuc 40000)) (2 ^ 16)) ≡ clamp_int16 (negsuc 40000)
to_int16-scroll_u16_example = to_int16-scroll_u16 (negsuc 40000)

abbrev pointer_bytes : List ℕ
pointer_bytes = 0 ∷ 0 ∷ 2 ∷ 0 ∷ 0 ∷ 0 ∷ 1 ∷ 9 ∷ []

read_int64_be-eq_zero_example :
    (read_int64_be pointer_bytes
      ≡ to_int32
          (bit_or (from_bytes 0 (take 4 pointer_bytes)) (from_bytes 0 (drop 4 pointer_bytes))))
    × ((read_int64_be pointer_bytes ≡ pos 0) ↔ (from_bytes 0 pointer_bytes ≡ 0))
read_int64_be-eq_zero_example = read_int64_be-eq_zero pointer_bytes refl (
  omega arith,
  (
    omega arith,
    (omega arith, (omega arith, (omega arith, (omega arith, (omega arith, (omega arith, tt)))))),
  ),
)
