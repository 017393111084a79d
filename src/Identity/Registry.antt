-- ===== src/Identity/Registry.antt =====
-- How the ids of a device fit together.
use ms_robot.Session.{Card}
use ms_robot.Base.{
  length, length-append, ◌≤◌, ◌<◌, starts_with, str_eq, str_eq_iff, ◌||◌, ℕ, zero, suc, ◌/◌, [],
  ◌∷◌, ◌++◌, ◌≡◌, ◌≢◌, refl, inl, inr, arith, All, Bool-cases, All-append, Str, ltb, ◌==◌, ◌+◌,
  true, ◌%◌, false,
}
use mathlib.Core.List.{append_assoc}
use ms_robot.Identity.{
  Device, get_device_api_udid, get_device_id, build_api_udid_from_device_data, from_at, at_sign,
  endpoint_part, transport_part, decimal, decimal_loop, transport, colon, matches_serial,
}

-- A serial as adb reports it: no `@`.
abbrev pub HasNoAt : Str → Type 0
HasNoAt = All (λ c. c ≢ at_sign)

decimal_loop-HasNoAt : (fuel n : ℕ) → HasNoAt (decimal_loop fuel n)
unfolding decimal_loop
decimal_loop-HasNoAt zero n = tt
decimal_loop-HasNoAt (suc fuel) n = elim (Bool-cases (ltb n 10)) [
  | inl e ↦ rw e (ground arith, tt)
  | inr e ↦
      rw e
        (All-append (λ c. c ≢ at_sign) _ _ (decimal_loop-HasNoAt fuel (n / 10)) (omega arith, tt))
]

transport_part-HasNoAt : (tid : ℕ) → HasNoAt (transport_part tid)
unfolding transport_part decimal
transport_part-HasNoAt tid = elim (Bool-cases (tid == 0)) [
  | inl e ↦ rw e tt
  | inr e ↦ rw e (omega arith, decimal_loop-HasNoAt (suc tid) tid)
]

from_at-append : (s t : Str) → HasNoAt s → from_at (s ++ t) ≡ from_at t
unfolding from_at
from_at-append [] t h = refl
from_at-append (c ∷ s) t h = ground (arith, from_at-append s t h.1)

from_at-endpoint_part : (eid : Str) → from_at (endpoint_part eid) ≡ endpoint_part eid
unfolding from_at
from_at-endpoint_part [] = refl
from_at-endpoint_part (c ∷ eid) = refl

-- New data of a device builds the same apiUdid as a full description of the device, when the
-- serial has no `@` and the card's id is the device's.
pub build_api_udid-eq-get_device_api_udid :
    (device : Device)
    → HasNoAt device.udid
    → build_api_udid_from_device_data device (get_device_id device) ≡ get_device_api_udid device
unfolding build_api_udid_from_device_data get_device_id get_device_api_udid
build_api_udid-eq-get_device_api_udid device h = rw (
  from_at-append device.udid (endpoint_part device.endpoint_id) h,
  from_at-endpoint_part,
  append_assoc,
)

starts_with-length : (s p : Str) → starts_with s p ≡ true → length p ≤ length s
starts_with-length s [] h = omega arith
starts_with-length [] (p ∷ ps) h = cc
starts_with-length (c ∷ s) (p ∷ ps) h = omega (arith, starts_with-length s ps (ground arith))

decimal-length : (n : ℕ) → 0 < length (decimal n)
unfolding decimal decimal_loop
decimal-length n = ground (arith, length-append (decimal_loop n (n / 10)) ((48 + n % 10) ∷ []))

-- With a transport id the apiUdid is longer than the deviceId.
api_udid-longer :
    (device : Device)
    → 0 < transport device.transport_id
    → length (get_device_id device) < length (get_device_api_udid device)
unfolding get_device_id get_device_api_udid transport_part
api_udid-longer device h = ground (
  arith,
  length-append device.udid (endpoint_part device.endpoint_id),
  length-append device.udid
      (transport_part (transport device.transport_id) ++ endpoint_part device.endpoint_id),
  length-append (colon ∷ decimal (transport device.transport_id))
      (endpoint_part device.endpoint_id),
)

-- A card is not found by the apiUdid of its own device, where that has a transport id: the search
-- by serial wants the serial alone.
matches_serial-api_udid :
    (device : Device) (w : Card)
    → 0 < transport device.transport_id
    → w.device_id ≡ get_device_id device
    → matches_serial (get_device_api_udid device) w ≡ false
matches_serial-api_udid device w h e = ground (
  arith,
  api_udid-longer device h,
  str_eq_iff w.device_id (get_device_api_udid device),
  starts_with-length w.device_id (get_device_api_udid device ++ at_sign ∷ []),
  length-append (get_device_api_udid device) (at_sign ∷ []),
)

matches-append :
    (u s eid : Str)
    → HasNoAt u
    → HasNoAt s
    → (str_eq (u ++ endpoint_part eid) s
        || starts_with (u ++ endpoint_part eid) (s ++ at_sign ∷ []))
      ≡ str_eq u s
matches-append [] [] [] hu hs = refl
matches-append [] [] (e ∷ eid) hu hs = refl
matches-append [] (c ∷ s) [] hu hs = refl
matches-append [] (c ∷ s) (e ∷ eid) hu (ne, _) = ground arith
matches-append (a ∷ u) [] eid (ne, _) hs = ground arith
matches-append (a ∷ u) (c ∷ s) eid (_, hu) (_, hs) = ground (arith, matches-append u s eid hu hs)

-- Among serials without `@`, the search by serial finds a device's card exactly by its serial.
pub matches_serial-get_device_id :
    (device : Device) (serial : Str) (w : Card)
    → HasNoAt device.udid
    → HasNoAt serial
    → w.device_id ≡ get_device_id device
    → matches_serial serial w ≡ str_eq device.udid serial
matches_serial-get_device_id device serial w hd hs e =
    rw e (unfold get_device_id in matches-append device.udid serial device.endpoint_id hd hs)
