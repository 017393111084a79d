-- ===== src/Status/Replug.antt =====
-- A device that comes back under another transport id, and the end of the web socket.
use ms_robot.Base.Maps.{get, get-put}
use ms_robot.Identity.{get_api_udid, find_all, matches_serial, Device, find_wrappers_by_serial}
use ms_robot.Base.{
  ◌≡◌, ℕ, List, true, Bool, suc, zero, not, [], ◌&&◌, length, refl, arith, none, or_else,
  str_eq_iff, Bool-cases, truthy, inl, inr, str_eq, codes, some, ap,
}
use mathlib.Core.List.{◌∷◌}
use ms_robot.Status.{
  update_maps, update_device_status, new_api_udid, on_close, close_card, close_from, nth, gone,
  rename, Str, drop_session, cleanup_connection, set_device_connection_state,
  handle_web_socket_message, update_if, device_status,
}
use ms_robot.Session.{Page, Card}

-- When no connection stands under the new apiUdid of a card, a round of `updateDeviceStatus` leaves
-- all connections as they were, whatever the status, while the registry names the card by the new
-- apiUdid: a connection under the old one stays, and is not found by the card any more.
update_maps-connections :
    (page : Page) (udid : Str) (device : Device) (w : Card)
    → get page.connections (new_api_udid device w) ≡ none
    → ((update_maps page udid device w).connections ≡ page.connections)
      × (get_api_udid (update_maps page udid device w).registry w.device_id
          ≡ or_else (new_api_udid device w) w.device_id)
unfolding update_maps rename drop_session cleanup_connection set_device_connection_state
    get_api_udid
update_maps-connections page udid device w h = ground (
  arith,
  get-put page.registry w.device_id w.device_id (new_api_udid device w),
  str_eq_iff w.device_id w.device_id,
)

-- No card of the document has the serial of this text.
abbrev pub none_matches : Str → List Card → Bool
none_matches udid [] = true
none_matches udid (w ∷ ws) = not (matches_serial udid w) && none_matches udid ws

-- No card's apiUdid is a serial of a card.
abbrev none_named : List Card → List Card → Bool
none_named cards [] = true
none_named cards (w ∷ ws) = none_matches w.udid cards && none_named cards ws

find_all-none :
    (udid : Str) (ws : List Card)
    → none_matches udid ws ≡ true
    → find_all (matches_serial udid) ws ≡ []
find_all-none udid [] h = refl
find_all-none udid (w ∷ ws) h = ground (arith, find_all-none udid ws)

update-none :
    (page : Page) (udid : Str) (device : Device)
    → none_matches udid page.cards ≡ true
    → update_device_status page udid device ≡ (page, str_eq device.status (codes "online"))
unfolding update_device_status find_wrappers_by_serial
update-none page udid device h =
    rw (update_device_status, find_wrappers_by_serial, find_all-none udid page.cards h)
      (elim (Bool-cases (truthy udid)) [ inl e ↦ rw e refl | inr e ↦ rw e refl ])

close_card-none :
    (page : Page) (ws : List Card) (n : ℕ)
    → none_named page.cards ws ≡ true
    → close_card page (nth ws n) ≡ page
unfolding close_card
close_card-none page [] n h = refl
close_card-none page (w ∷ ws) zero h = ground (arith, update-none page w.udid (gone w.udid))
close_card-none page (w ∷ ws) (suc n) h = ground (arith, close_card-none page ws n)

close_from-none :
    (page : Page) (left n : ℕ)
    → none_named page.cards page.cards ≡ true
    → close_from left n page ≡ page
unfolding close_from
close_from-none page zero n h = refl
close_from-none page (suc left) n h =
    rw (close_card-none page page.cards n h) (close_from-none page left (suc n) h)

-- When the web socket ends and no card's apiUdid is the serial or the deviceId of a card, the page
-- stays as it is: no card goes offline.
pub on_close-unmatched :
    (page : Page) → none_named page.cards page.cards ≡ true → on_close page ≡ page
unfolding on_close
on_close-unmatched page h = close_from-none page (length page.cards) 0 h

-- A status message for a serial that no card has changes nothing on the page; it loads the list of
-- devices again exactly if the device came online.
pub handle_web_socket_message-unknown :
    (to_lower_case : Str → Str) (has_label : Str → Bool) (page : Page) (udid : Str)
    (device : Device)
    → none_matches udid page.cards ≡ true
    → ((handle_web_socket_message to_lower_case has_label page
          (device_status udid (some device))).page
        ≡ page)
      × ((handle_web_socket_message to_lower_case has_label page
            (device_status udid (some device))).reload
          ≡ str_eq device.status (codes "online"))
unfolding handle_web_socket_message update_if
handle_web_socket_message-unknown to_lower_case has_label page udid device h =
    (ap (λ d. d.0) (update-none page udid device h), ap (λ d. d.1) (update-none page udid device h))
