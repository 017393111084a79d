-- ===== src/Status/Renamed.antt =====
-- A device that is plugged in again is not found under its old apiUdid any more.
use ms_robot.Base.{
  true, false, inl, inr, [], ◌∷◌, arith, Str, truthy, List, ◌≡◌, str_eq, or_else-truthy, ap, ◌||◌,
  Bool, if◌then◌else◌, ◌&&◌, not, or_else, Bool-cases, str_eq_iff, sym, ◌∙◌, none, refl, map,
}
use ms_robot.Status.{
  update_card, update_maps, update_device_status, rename, update_all, drop_session,
  cleanup_connection, set_device_connection_state, new_api_udid,
}
use ms_robot.Identity.{
  get_api_udid, get_api_udid_for_card, Device, registered, find_first, find_wrapper_by_api_udid,
  find_wrappers_by_serial,
}
use ms_robot.Base.Maps.{Map, get, put, get-put}
use ms_robot.Session.{Card, Page}

-- Every card has a deviceId, and none but the cards of `device_id` has the apiUdid `u`.
abbrev pub names_only : Map Str → Str → Str → List Card → Bool
names_only registry device_id u [] = true
names_only registry device_id u (w ∷ ws) =
    (truthy w.device_id
      && (str_eq device_id w.device_id
          || not (str_eq (registered (get registry w.device_id) w.device_id) u)))
    && names_only registry device_id u ws

updated-device_id :
    (udid : Str) (device : Device) (w : Card) → (update_card udid device w).device_id ≡ w.device_id
unfolding update_card
updated-device_id udid device w = ground arith

named-for_card :
    (registry : Map Str) (w : Card)
    → truthy w.device_id ≡ true
    → get_api_udid_for_card registry w ≡ registered (get registry w.device_id) w.device_id
unfolding get_api_udid_for_card get_api_udid
named-for_card registry w h =
    let key = or_else-truthy w.device_id w.udid h in
    ap (λ k. if truthy k then registered (get registry k) k else []) key
    ∙ ap (λ b. if b then registered (get registry w.device_id) w.device_id else []) h

renamed-card :
    (registry : Map Str) (device_id new u : Str) (w : Card)
    → truthy w.device_id ≡ true
    → str_eq device_id w.device_id
        || not (str_eq (registered (get registry w.device_id) w.device_id) u)
      ≡ true
    → str_eq (or_else new device_id) u ≡ false
    → str_eq (registered (get (put registry device_id new) w.device_id) w.device_id) u ≡ false
renamed-card registry device_id new u w t h n = elim (Bool-cases (str_eq device_id w.device_id)) [
  | inl e ↦
      let same = (str_eq_iff device_id w.device_id).0 e in
      rw (get-put registry device_id w.device_id new, e, sym same) n
  | inr e ↦ rw (get-put registry device_id w.device_id new, e) (ground (arith, h, e))
]

renamed-find :
    (registry : Map Str) (device_id new u udid : Str) (device : Device) (cards : List Card)
    → names_only registry device_id u cards ≡ true
    → str_eq (or_else new device_id) u ≡ false
    → find_first
        (λ w. str_eq (get_api_udid_for_card (put registry device_id new) w) u)
        (map (update_card udid device) cards)
      ≡ none
renamed-find registry device_id new u udid device [] h n = refl
renamed-find registry device_id new u udid device (w ∷ ws) h n =
    let c = update_card udid device w in
    let same = updated-device_id udid device w in
    let named : truthy c.device_id ≡ true = rw same (ground (arith, h)) in
    let other : str_eq (get_api_udid_for_card (put registry device_id new) c) u ≡ false =
      rw (named-for_card (put registry device_id new) c named, same)
        (renamed-card registry device_id new u w (ground (arith, h)) (ground (arith, h)) n) in
    rw other (renamed-find registry device_id new u udid device ws (ground (arith, h)) n)

update_maps-registry :
    (page : Page) (udid : Str) (device : Device) (w : Card)
    → (update_maps page udid device w).registry
      ≡ put page.registry w.device_id (new_api_udid device w)
unfolding update_maps rename drop_session cleanup_connection set_device_connection_state
update_maps-registry page udid device w = ground arith

-- When a serial has one card and a status message gives that card another apiUdid, nothing is found
-- under its old one.
pub update_device_status-find :
    (page : Page) (udid u : Str) (device : Device) (w : Card)
    → find_wrappers_by_serial page.cards udid ≡ w ∷ []
    → names_only page.registry w.device_id u page.cards ≡ true
    → str_eq (or_else (new_api_udid device w) w.device_id) u ≡ false
    → find_wrapper_by_api_udid (update_device_status page udid device).0 u ≡ none
unfolding update_device_status update_all find_wrapper_by_api_udid
update_device_status-find page udid u device w one only new =
    rw (one, update_device_status, update_maps-registry page udid device w)
      (elim (Bool-cases (truthy u)) [
        | inl t ↦ rw t (
            renamed-find page.registry w.device_id (new_api_udid device w) u udid device page.cards
              only new)
        | inr t ↦ rw t refl
      ])
