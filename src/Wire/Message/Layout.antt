-- ===== src/Wire/Message/Layout.antt =====
-- What a reader of the protocol finds in the messages: each field, in the order and with the
-- sizes of scrcpy's reader, holds the argument of the command.
use ms_robot.Base.{
  ltb, ℕ, ◌^◌, ◌%◌, ◌<◌, ◌-◌, List, [], ◌∷◌, ◌++◌, ◌≡◌, arith, Str, Bool, length, if◌then◌else◌,
  All,
}
use ms_robot.Base.Int.{max_ℤ, min_ℤ, ℤ, pos, negsuc, residue}
use ms_robot.Session.{Page, get_device_screen_size}
use ms_robot.Wire.Bytes.{uint8_array}
use ms_robot.Wire.Bytes.Value.{IsByte}
use ms_robot.Wire.Text.{string_to_utf8_bytes}
use ms_robot.Wire.Text.Bounds.{IsUtf16, string_to_utf8_bytes-IsByte}
use ms_robot.Wire.Fields.{read_fields, field_laws, uint8_array_id, one_byte}
use ms_robot.Wire.Message.{
  inject_keycode, inject_touch_event, inject_text, scroll_u16, set_clipboard, create_uhid,
  uhid_input, start_app, touch_buttons,
}

-- A key event: action, key code, repeat, meta state.
pub read-inject_keycode :
    (udid : Str) (keycode action : ℕ)
    → action < 256
    → keycode < 2 ^ 32
    → read_fields (1 ∷ 4 ∷ 4 ∷ 4 ∷ []) (inject_keycode udid keycode action).payload
      ≡ (action ∷ keycode ∷ 0 ∷ 0 ∷ [], [])
unfolding inject_keycode
read-inject_keycode udid keycode action ha hk = simp field_laws (ground arith)

-- A touch event.
read-inject_touch_event :
    (page : Page) (udid : Str) (x y : ℤ) (action : ℕ) (pointer_id : ℤ)
    → action < 256
    → (get_device_screen_size page udid).width < 2 ^ 16
    → (get_device_screen_size page udid).height < 2 ^ 16
    → read_fields
        (1 ∷ 8 ∷ 4 ∷ 4 ∷ 2 ∷ 2 ∷ 2 ∷ 4 ∷ 4 ∷ [])
        (inject_touch_event page udid x y action pointer_id).payload
      ≡ (
        action
            ∷ residue pointer_id (2 ^ 64)
            ∷ residue x (2 ^ 32)
            ∷ residue y (2 ^ 32)
            ∷ (get_device_screen_size page udid).width
            ∷ (get_device_screen_size page udid).height
            ∷ 0xFFFF
            ∷ 0
            ∷ touch_buttons action
            ∷ [],
        [],
      )
unfolding inject_touch_event
read-inject_touch_event page udid x y action pointer_id ha hw hh = simp field_laws (ground arith)

-- The encoded bytes of a string of code units pass unchanged into a message.
uint8_array-text :
    (s : Str) → IsUtf16 s → uint8_array (string_to_utf8_bytes s) ≡ string_to_utf8_bytes s
uint8_array-text s h = uint8_array_id _ (string_to_utf8_bytes-IsByte s h)

-- A text: its length in four bytes, then its bytes.
pub read-inject_text :
    (udid text : Str)
    → IsUtf16 text
    → length (string_to_utf8_bytes text) < 2 ^ 32
    → read_fields (4 ∷ []) (inject_text udid text).payload
      ≡ (length (string_to_utf8_bytes text) ∷ [], string_to_utf8_bytes text)
unfolding inject_text
read-inject_text udid text hu hl = simp (field_laws, uint8_array-text text hu) (ground arith)

-- A clipboard command: sequence, paste flag, length of the text, then its bytes.
pub read-set_clipboard :
    (now : ℕ) (udid text : Str) (paste : Bool)
    → now < 2 ^ 64
    → IsUtf16 text
    → length (string_to_utf8_bytes text) < 2 ^ 32
    → read_fields (8 ∷ 1 ∷ 4 ∷ []) (set_clipboard now udid text paste).payload ≡ (
      now ∷ (if paste then 1 else 0) ∷ length (string_to_utf8_bytes text) ∷ [],
      string_to_utf8_bytes text,
    )
unfolding set_clipboard
read-set_clipboard now udid text paste hn hu hl =
    simp (field_laws, uint8_array-text text hu) (ground arith)

-- An application's name behind one byte of length: the byte tells the length modulo 256.
pub read-start_app :
    (udid name : Str)
    → IsUtf16 name
    → read_fields (1 ∷ []) (start_app udid name).payload
      ≡ (length (string_to_utf8_bytes name) % 256 ∷ [], string_to_utf8_bytes name)
unfolding start_app
read-start_app udid name hu = simp (field_laws, uint8_array-text name hu) (ground arith)

-- A new UHID device: the three ids, one byte that tells the length of the name modulo 256, the
-- name, one byte that tells the length of the report descriptor modulo 256, and the descriptor.
pub read-create_uhid :
    (udid : Str) (id vendor product : ℕ) (name : Str) (report : List ℕ)
    → id < 2 ^ 16
    → vendor < 2 ^ 16
    → product < 2 ^ 16
    → IsUtf16 name
    → All IsByte report
    → read_fields (2 ∷ 2 ∷ 2 ∷ 1 ∷ []) (create_uhid udid id vendor product name report).payload ≡ (
      id ∷ vendor ∷ product ∷ length (string_to_utf8_bytes name) % 256 ∷ [],
      string_to_utf8_bytes name ++ (length report % 256) ∷ report,
    )
unfolding create_uhid
read-create_uhid udid id vendor product name report hi hv hp hu hr =
    simp (field_laws, uint8_array-text name hu, uint8_array_id report hr, one_byte) (ground arith)

-- Input for a UHID device.
pub read-uhid_input :
    (udid : Str) (id : ℕ) (input : List ℕ)
    → id < 2 ^ 16
    → All IsByte input
    → length input < 2 ^ 16
    → read_fields (2 ∷ 2 ∷ []) (uhid_input udid id input).payload ≡ (id ∷ length input ∷ [], input)
unfolding uhid_input
read-uhid_input udid id input hi hb hl = simp (field_laws, uint8_array_id input hb) (ground arith)

-- The signed integer that the low 16 bits of a number stand for.
abbrev pub to_int16 : ℕ → ℤ
to_int16 x = let w = x % 2 ^ 16 in if ltb w (2 ^ 15) then pos w else negsuc (2 ^ 16 - 1 - w)

abbrev pub clamp_int16 : ℤ → ℤ
clamp_int16 v = max_ℤ (negsuc 0x7FFF) (min_ℤ (pos 0x7FFF) v)

-- The two bytes of a scroll value are read back as the fixed-point value, clamped to an int16.
pub to_int16-scroll_u16 : (v : ℤ) → to_int16 (residue (scroll_u16 v) (2 ^ 16)) ≡ clamp_int16 v
unfolding scroll_u16
to_int16-scroll_u16 (pos n) = ground arith
to_int16-scroll_u16 (negsuc n) = ground arith
