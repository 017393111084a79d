-- ===== src/Wire/Message/Payload.antt =====
-- The payloads of touch and scroll commands as sequences of fields.
use native.Mathlib.Nat.{mod-eq_of_lt}
use ms_robot.Wire.Fields.{field_laws}
use ms_robot.Wire.Bytes.{to_big_endian_bytes}
use ms_robot.Base.Int.{ℤ, pos}
use ms_robot.Session.{Page, get_device_screen_size}
use ms_robot.Wire.Message.{inject_touch_event, touch_buttons}
use ms_robot.Base.{ℕ, List, ◌∷◌, Str, ◌<◌, ◌++◌, ◌≡◌}

-- action, pointer id, x, y, width, height, pressure, action button, buttons
abbrev pub touch_fields : ℕ → List ℕ → ℤ → ℤ → ℕ → ℕ → ℕ → List ℕ
touch_fields action pointer x y width height buttons =
    action
    ∷ (pointer
        ++ (to_big_endian_bytes x 4
            ++ (to_big_endian_bytes y 4
                ++ (to_big_endian_bytes (pos width) 2
                    ++ (to_big_endian_bytes (pos height) 2
                        ++ (to_big_endian_bytes (pos 0xFFFF) 2
                            ++ (to_big_endian_bytes (pos 0) 4
                                ++ to_big_endian_bytes (pos buttons) 4)))))))

pub payload-inject_touch_event :
    (page : Page) (udid : Str) (x y : ℤ) (action : ℕ) (pointer_id : ℤ)
    → action < 256
    → (inject_touch_event page udid x y action pointer_id).payload
      ≡ touch_fields action
          (to_big_endian_bytes pointer_id 8)
          x
          y
          (get_device_screen_size page udid).width
          (get_device_screen_size page udid).height
          (touch_buttons action)
unfolding inject_touch_event
payload-inject_touch_event page udid x y action pointer_id h = simp (field_laws, mod-eq_of_lt h)
