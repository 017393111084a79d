-- ===== src/DeviceList/Render/Removal.antt =====
-- The removal of cards: `removeDeviceCard` and the end of `loadDevices` (assets/web/static/js/app.js).
use ms_robot.DeviceList.Render.{
  render_devices_list, ViewMode, get, Device, delete, get_api_udid_for_card, cleanup_if,
  get_device_id, includes, all_devices, filter_truthy, card_id,
}
use ms_robot.Session.{Page, Card}
use ms_robot.Base.{none, some, [], ◌∷◌, List, Str, if◌then◌else◌, Bool, Option, map, str_eq, ◌&&◌}

abbrev pub has_udid : List Card → Str → Option Card
has_udid [] id = none
has_udid (w ∷ ws) id = if str_eq w.udid id then some w else has_udid ws id

abbrev pub find_id : List Card → Str → Option Card
find_id [] id = none
find_id (w ∷ ws) id = if str_eq w.device_id id then some w else find_id ws id

-- The card that `removeDeviceCard` finds in the document: by the id of the device, else by its udid.
unfoldable pub find_removed : List Card → Str → Option Card
find_removed ws id = elim (find_id ws id) [ none ↦ has_udid ws id | some w ↦ some w ]

-- The first card with the id and udid of a card goes.
abbrev pub same_card : Card → Card → Bool
same_card v w = str_eq v.device_id w.device_id && str_eq v.udid w.udid

unfoldable pub remove_first : Card → List Card → List Card
remove_first v [] = []
remove_first v (w ∷ ws) = let rest = remove_first v ws in if same_card v w then ws else w ∷ rest

unfoldable pub remove_device_card : Page → Str → Page
unfolding find_removed remove_first
remove_device_card page id = elim (find_removed page.cards id) [
  | none ↦ page
  | some w ↦ record page {
    cards = remove_first w page.cards;
    registry = delete page.registry w.device_id;
    states = delete page.states (get_api_udid_for_card page.registry w);
  }
]

-- The end of `loadDevices` for one id of a card that was shown before.
unfoldable pub remove_gone : Page → Str → Page
unfolding remove_device_card
remove_gone page id = elim (get page.registry id) [
  | none ↦ remove_device_card page id
  | some api_udid ↦ remove_device_card (cleanup_if page api_udid) id
]

unfoldable pub remove_all_gone : Page → List Str → List Str → Page
unfolding remove_gone
remove_all_gone page ids [] = page
remove_all_gone page ids (id ∷ shown) =
    remove_all_gone (if includes ids id then page else remove_gone page id) ids shown

-- `loadDevices` from `renderDevicesList` on.
unfoldable pub load_devices : Page → ViewMode → List Str → List (Str × List Device) → Page
unfolding render_devices_list remove_all_gone
load_devices page view order groups =
    remove_all_gone (render_devices_list page view order groups).0
      (map get_device_id (all_devices groups)) (filter_truthy (map card_id page.cards))
