-- ===== src/Tests/Devices.antt =====
-- Devices, their status and their selection at concrete inputs.
use ms_robot.DeviceList.Sorted.{GridItem, sort_device_cards, sort_device_cards-Perm}
use mathlib.Core.List.{Perm}
use mathlib.Core.List.Perm
use ms_robot.DeviceList.Render.Stale.{load_devices-registry}
use ms_robot.DeviceList.Render.{ViewMode, all_devices, has_card, render_devices_list}
use ms_robot.DeviceList.Render.Removal.{load_devices}
use ms_robot.DeviceList.Render.Gone.{all_named}
use ms_robot.DeviceList.Render.Drawn.{render_devices_list-has_card}
use ms_robot.DeviceList.Render.Listed.{all_ided}
use ms_robot.Control.Send.{includes}
use ms_robot.Base.Int.{pos}
use ms_robot.Status.Replug.{on_close-unmatched, handle_web_socket_message-unknown}
use ms_robot.Selection.Counts.{with_status, select_all-tick_box, set_counts-with_status}
use ms_robot.Base.Maps.{get}
use ms_robot.Status.Offline.{IsDisconnected, update_device_status-offline}
use ms_robot.Selection.{update_select_all_checkbox, set_counts, select_all}
use ms_robot.Identity.Registry.{
  HasNoAt, build_api_udid-eq-get_device_api_udid, matches_serial-get_device_id,
}
use ms_robot.Base.{
  List, Str, ◌≡◌, ◌<◌, codes, refl, str_eq, some, arith, false, none, true, ◌∷◌, [], map, ℕ, Option,
}
use ms_robot.Status.{
  on_close, update_device_status, new_api_udid, handle_web_socket_message, device_status,
}
use mathlib.Core.List.Memᴰ.{head}
use ms_robot.Tests.Data.{page, phone}
use ms_robot.Identity.{
  Device, build_api_udid_from_device_data, get_device_id, matches_serial, get_device_api_udid,
  transport, decimal,
}

-- The phone, plugged in again under another transport id.
abbrev pub phone_data : Device
phone_data = record {
  udid = codes "p";
  name = codes "Phone";
  transport_id = some (pos 3);
  endpoint_id = codes "e";
  status = codes "offline";
}

p-HasNoAt : HasNoAt (codes "p")
p-HasNoAt = (ground arith, tt)

transport_positive : 0 < transport phone_data.transport_id
transport_positive = omega arith

phone_id : phone.device_id ≡ get_device_id phone_data
unfolding get_device_id
phone_id = refl

build_api_udid-eq-get_device_api_udid_example :
    build_api_udid_from_device_data phone_data (get_device_id phone_data)
    ≡ get_device_api_udid phone_data
build_api_udid-eq-get_device_api_udid_example =
    build_api_udid-eq-get_device_api_udid phone_data p-HasNoAt

matches_serial-get_device_id_example :
    matches_serial (codes "p") phone ≡ str_eq phone_data.udid (codes "p")
matches_serial-get_device_id_example =
    matches_serial-get_device_id phone_data (codes "p") phone p-HasNoAt p-HasNoAt phone_id

update_device_status-offline_example :
    IsDisconnected
      (update_device_status page (codes "p") phone_data).0
      (new_api_udid phone_data phone)
update_device_status-offline_example =
    update_device_status-offline page (codes "p") phone_data phone refl refl refl (head refl)

no_new_connection : get page.connections (new_api_udid phone_data phone) ≡ none
unfolding get build_api_udid_from_device_data decimal
no_new_connection = refl

on_close-unmatched_example : on_close page ≡ page
on_close-unmatched_example = on_close-unmatched page refl

select_all-tick_box_example :
    (update_select_all_checkbox (select_all page true).cards).0
    ≡ record { checked = true; indeterminate = false }
select_all-tick_box_example = select_all-tick_box page true (omega arith)

set_counts-with_status_example :
    ((set_counts page.cards).online ≡ with_status (codes "online") page.cards)
    × ((set_counts page.cards).offline ≡ with_status (codes "offline") page.cards)
set_counts-with_status_example = set_counts-with_status page.cards

handle_web_socket_message-unknown_example :
    ((handle_web_socket_message
        (λ s. s)
        (λ s. true)
        page
        (device_status (codes "x") (some phone_data))).page
      ≡ page)
    × ((handle_web_socket_message
          (λ s. s)
          (λ s. true)
          page
          (device_status (codes "x") (some phone_data))).reload
        ≡ str_eq phone_data.status (codes "online"))
handle_web_socket_message-unknown_example =
    handle_web_socket_message-unknown (λ s. s) (λ s. true) page (codes "x") phone_data refl

-- The list has the phone alone; the tablet is gone.
abbrev phone_online : Device
phone_online = record phone_data { status = codes "online" }

cards_named : all_named page.cards ≡ true
cards_named = refl

-- The groups of the list: one endpoint with the phone, and one without devices.
abbrev groups : List (Str × List Device)
groups = (codes "e", phone_online ∷ []) ∷ (codes "f", []) ∷ []

-- The section of the endpoint, with the cards of the page in it.
abbrev shown_sections : ViewMode
shown_sections = ViewMode.sections ((codes "e", page.cards) ∷ [])

phone_only : includes (map get_device_id (all_devices groups)) (codes "t@e") ≡ false
unfolding get_device_id
phone_only = refl

phone_ided : all_ided (all_devices groups) ≡ true
unfolding get_device_id
phone_ided = refl

render_devices_list-has_card_example :
    has_card (render_devices_list page shown_sections (codes "f" ∷ []) groups).0.cards (codes "p@e")
    ≡ includes (map get_device_id (all_devices groups)) (codes "p@e")
render_devices_list-has_card_example =
    render_devices_list-has_card page shown_sections (codes "f" ∷ []) groups (codes "p@e")
      cards_named refl phone_ided

load_devices-registry_example :
    (has_card (load_devices page shown_sections (codes "f" ∷ []) groups).cards (codes "t@e")
      ≡ false)
    × (get (load_devices page shown_sections (codes "f" ∷ []) groups).registry (codes "t@e")
        ≡ get page.registry (codes "t@e"))
load_devices-registry_example =
    load_devices-registry page shown_sections (codes "f" ∷ []) groups (codes "t@e") cards_named refl
      phone_ided phone_only

abbrev grid_item : ℕ → Option (Str × Str) → GridItem
grid_item n d = record { element = n; has_wrapper = true; device_data = d }

-- A card without data in front of two with data.
abbrev grid_items : List GridItem
grid_items =
    grid_item 0 none
    ∷ grid_item 1 (some (codes "b", codes "s"))
    ∷ grid_item 2 (some (codes "a", codes "s"))
    ∷ []

sort_device_cards-Perm_example :
    Perm (sort_device_cards (λ s. s) (λ s t. pos 0) (λ compare items. items) grid_items) grid_items
sort_device_cards-Perm_example =
    sort_device_cards-Perm (λ s. s) (λ s t. pos 0) (λ compare items. items) grid_items
      (λ compare xs. Perm.refl xs) refl
