-- ===== src/Control/Device/Relay.antt =====
-- A device relays an event to a screen: where the coordinates land.
use ms_robot.Control.Event.Read.{read_int32_be_round_trip, read_int16_be-to_big_endian_bytes}
use native.Mathlib.Nat.{mod-eq_of_lt}
use ms_robot.Control.Event.Parse.{parse-touch_fields}
use ms_robot.Wire.Fields.{field_laws}
use ms_robot.Wire.Bytes.{to_big_endian_bytes}
use ms_robot.Wire.Message.Payload.{touch_fields, payload-inject_touch_event}
use ms_robot.Wire.Message.{inject_touch_event, touch_buttons}
use ms_robot.Control.Event.{relative, relative-pos, parse_control_message, touch, slice}
use Prim.Native.Nat.{min}
use ms_robot.Session.{Page, get_device_screen_size, ScreenSize}
use ms_robot.Control.Device.{touch_target, clamp, is_multi_touch, event_message}
use ms_robot.Base.Int.{ℤ, pos, negsuc, eq_ℤ}
use ms_robot.Number.{Number, IsAccurate}
use mathlib.Core.Option
use ms_robot.Base.{
  ℕ, ◌<◌, ◌≡◌, ◌≤◌, arith, false, Bool-cases, Str, ◌-◌, ◌&&◌, ◌^◌, inl, ◌+◌, ◌/◌, some, inr, ◌∷◌,
  refl, ap,
}

clamp_within : (v : ℤ) (size : ℕ) → 0 < size → (n : ℕ) × (clamp v size ≡ pos n) × (n < size)
clamp_within (pos n) size h = (min n (size - 1), ground arith, omega arith)
clamp_within (negsuc n) size h = (0, ground arith, omega arith)

clamp_id : (n size : ℕ) → n < size → clamp (pos n) size ≡ pos n
clamp_id n size h = ground arith

module _ (F : Number) where
  -- On a screen at least two pixels wide every target lies on the screen.
  pub touch_target_bounds :
      (action : ℕ) (pointer_id : ℤ) (rel : F.Num) (size : ℕ)
      → 2 ≤ size
      → (n : ℕ) × (touch_target F action pointer_id rel size ≡ pos n) × (n < size)
  unfolding touch_target
  touch_target_bounds action pointer_id rel size h =
      elim (Bool-cases (is_multi_touch action && eq_ℤ pointer_id (pos 0))) [
        | inl e ↦ ((size + 1) / 2, rw e, omega arith)
        | inr e ↦ rw e (clamp_within (F.round (F.mul rel (F.of_int (pos size)))) size (omega arith))
      ]

module _ (F : Number) (accurate : IsAccurate F) where
  -- A position on a screen is scaled back onto itself.
  touch_target-relative :
      (action : ℕ) (pointer_id : ℤ) (x size : ℕ)
      → is_multi_touch action ≡ false
      → x < size
      → size < 2 ^ 16
      → touch_target F action pointer_id (relative F (pos x) size) size ≡ pos x
  unfolding touch_target
  touch_target-relative action pointer_id x size single hx hs =
      ground (arith, accurate.round_scale x size, relative-pos F x size, clamp_id x size hx)

slice-touch_fields :
    (action : ℕ) (pointer x y : ℤ) (width height b : ℕ)
    → slice (touch_fields action (to_big_endian_bytes pointer 8) x y width height b) 1 9
      ≡ to_big_endian_bytes pointer 8
unfolding to_big_endian_bytes
slice-touch_fields action pointer x y width height b = refl

-- The message of a touch event whose targets are known.
event_message-touch :
    (F : Number) (size : ScreenSize) (action : ℕ) (pointer p x y : ℤ) (rx ry : F.Num) (w h b : ℕ)
    → action < 256
    → touch_target F action p rx size.width ≡ x
    → touch_target F action p ry size.height ≡ y
    → event_message F size
        (touch action p rx ry w h)
        2
        (touch_fields action (to_big_endian_bytes pointer 8) x y size.width size.height b)
      ≡ 2
        ∷ touch_fields action
            (to_big_endian_bytes pointer 8)
            x
            y
            size.width
            size.height
            (touch_buttons action)
unfolding event_message
event_message-touch F size action pointer p x y rx ry w h b ha ex ey = simp (
  ex,
  ey,
  slice-touch_fields action pointer x y size.width size.height b,
  field_laws,
  mod-eq_of_lt ha,
)

module _ (F : Number) (accurate : IsAccurate F) where
  -- The device that an event came from gets the message that was built for it: on a screen of the
  -- same size, for a single pointer and coordinates on the screen, parsing the payload of a touch
  -- command and building the device's message restores the command, behind its type.
  pub relay-inject_touch_event :
      (page : Page) (udid : Str) (x y action : ℕ) (pointer_id : ℤ)
      → action < 256
      → is_multi_touch action ≡ false
      → x < (get_device_screen_size page udid).width
      → y < (get_device_screen_size page udid).height
      → (get_device_screen_size page udid).width < 2 ^ 16
      → (get_device_screen_size page udid).height < 2 ^ 16
      → Option.map
          (λ event.
            event_message F
              (get_device_screen_size page udid)
              event
              2
              (inject_touch_event page udid (pos x) (pos y) action pointer_id).payload)
          (parse_control_message F 2
            (inject_touch_event page udid (pos x) (pos y) action pointer_id).payload)
        ≡ some (2 ∷ (inject_touch_event page udid (pos x) (pos y) action pointer_id).payload)
  relay-inject_touch_event page udid x y action pointer_id ha hm hx hy hw hh =
      let size = get_device_screen_size page udid in
      simp
        (
          payload-inject_touch_event page udid (pos x) (pos y) action pointer_id ha,
          parse-touch_fields F action pointer_id (pos x) (pos y) size.width size.height
              (touch_buttons action),
          read_int32_be_round_trip (pos x) (omega arith) (omega arith),
          read_int32_be_round_trip (pos y) (omega arith) (omega arith),
          read_int16_be-to_big_endian_bytes,
          mod-eq_of_lt hw,
          mod-eq_of_lt hh,
        )
        (ap some (
          event_message-touch F size action pointer_id _ (pos x) (pos y) _ _ _ _ _ ha
            (touch_target-relative F accurate action _ x size.width hm hx hw)
            (touch_target-relative F accurate action _ y size.height hm hy hh)))
