-- ===== src/DeviceList/Grouping.antt =====
-- No device is lost by the grouping.
use mathlib.Core.List.{append-nil, append_assoc}
use ms_robot.Base.Maps.{get}
use ms_robot.Base.Maps.{get-put}
use ms_robot.Base.{
  List, ◌∷◌, Bool, ◌++◌, ◌≡◌, if◌then◌else◌, str_eq, [], sym, false, ◌||◌, Bool-cases, inl, inr,
  arith, true, refl, str_eq_iff, not, ap, ◌∙◌,
}
use ms_robot.DeviceList.{
  devices_at, group_from, by_endpoint, other_keys, endpoint_order, ordered_endpoint_keys, Endpoint,
  Map, Str, get, includes, Device, put,
}

-- The devices of an endpoint, in their order.
abbrev pub of_endpoint : Str → List Device → List Device
of_endpoint key [] = []
of_endpoint key (d ∷ ds) =
    if str_eq d.endpoint_id key then d ∷ of_endpoint key ds else of_endpoint key ds

devices_at-put :
    (groups : Map (List Device)) (j k : Str) (devices : List Device)
    → devices_at (put groups j devices) k ≡ (if str_eq j k then devices else devices_at groups k)
devices_at-put groups j k devices =
    rw (devices_at, get-put groups j k devices)
      (elim (Bool-cases (str_eq j k)) [ inl e ↦ rw e refl | inr e ↦ rw e refl ])

devices_at-group_from :
    (groups : Map (List Device)) (ds : List Device) (k : Str)
    → devices_at (group_from groups ds) k ≡ devices_at groups k ++ of_endpoint k ds
unfolding group_from
devices_at-group_from groups [] k = sym (append-nil _)
devices_at-group_from groups (d ∷ ds) k =
    rw
      (
        devices_at-group_from (put groups d.endpoint_id (devices_at groups d.endpoint_id ++ d ∷ []))
            ds k,
        devices_at-put groups d.endpoint_id k (devices_at groups d.endpoint_id ++ d ∷ []),
      )
      (elim (Bool-cases (str_eq d.endpoint_id k)) [
        | inl e ↦ rw e (
            ap (λ key. (devices_at groups key ++ d ∷ []) ++ of_endpoint k ds)
              ((str_eq_iff d.endpoint_id k).0 e)
            ∙ append_assoc (devices_at groups k) (d ∷ []) (of_endpoint k ds))
        | inr e ↦ rw e refl
      ])

includes-append :
    (xs ys : List Str) (k : Str) → includes (xs ++ ys) k ≡ (includes xs k || includes ys k)
includes-append [] ys k = refl
includes-append (x ∷ xs) ys k = ground (arith, includes-append xs ys k)

abbrev pub is_filled : List Device → Bool
is_filled [] = false
is_filled (_ ∷ _) = true

-- A group with devices is among the endpoints or among the other keys.
other_keys-includes :
    (order : List Str) (groups : Map (List Device)) (k : Str)
    → is_filled (devices_at groups k) ≡ true
    → (includes order k || includes (other_keys order groups) k) ≡ true
unfolding other_keys get
other_keys-includes order [] k h = ground arith
other_keys-includes order ((j, devices) ∷ groups) k h =
    ground (arith, other_keys-includes order groups k, str_eq_iff j k)

-- Each group holds exactly the devices of its endpoint, in the order of the list of devices; and each
-- endpoint that has a device is among the keys that are shown, whether it is a known endpoint or not.
by_endpoint-of_endpoint :
    (eps : List Endpoint) (ds : List Device) (k : Str)
    → (devices_at (by_endpoint ds) k ≡ of_endpoint k ds)
      × ((not (is_filled (of_endpoint k ds)) || includes (ordered_endpoint_keys eps ds) k) ≡ true)
unfolding by_endpoint ordered_endpoint_keys get
by_endpoint-of_endpoint eps ds k =
    let path = devices_at-group_from [] ds k in
    let order = endpoint_order eps in
    (
      path,
      ground (
        arith,
        path,
        includes-append order (other_keys order (by_endpoint ds)) k,
        other_keys-includes order (by_endpoint ds) k,
      ),
    )
