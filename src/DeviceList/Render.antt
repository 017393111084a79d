-- ===== src/DeviceList/Render.antt =====
-- The cards of the list of devices (assets/web/static/js/app.js): `renderDevicesList` by sections or in
-- one grid, and `fillDeviceGrid`. The cards of the page are those of the list, in the order of the
-- document.
pub mod Gone
pub mod Listed
pub mod Grids
pub mod Drawn
pub mod Removal
pub mod Stale
use ms_robot.Control.Send.{filter_truthy}
use ms_robot.Status.{cleanup_connection}
use ms_robot.DeviceList.{Endpoint, devices_at, by_endpoint, includes, ordered_endpoint_keys}
use ms_robot.Base.Maps.{Map, put, get, delete}
use ms_robot.Base.{
  List, Str, ◌∷◌, or_else, [], Bool, Option, if◌then◌else◌, map, false, some, str_eq, truthy, ◌||◌,
  ◌++◌, none, ◌&&◌, not, true, refl, inl, inr, zero, suc, arith,
}
use ms_robot.Identity.{Device, get_device_id, get_device_api_udid, get_api_udid_for_card}
use ms_robot.Session.{Page, Card, ConnectionState}

abbrev pub card_id : Card → Str
card_id w = or_else w.device_id w.udid

abbrev sorted_groups :
    (List Device → List Device) → Map (List Device) → List Str → List (Str × List Device)
sorted_groups sort_devices groups [] = []
sorted_groups sort_devices groups (key ∷ keys) =
    (key, sort_devices (devices_at groups key)) ∷ sorted_groups sort_devices groups keys

-- The keys in the order shown, each with its devices sorted by `sortDevices`.
unfoldable pub ordered_groups :
    (List Device → List Device) → List Endpoint → List Device → List (Str × List Device)
ordered_groups sort_devices eps devices =
    sorted_groups sort_devices (by_endpoint devices) (ordered_endpoint_keys eps devices)

-- `allDevices`
abbrev pub all_devices : List (Str × List Device) → List Device
all_devices [] = []
all_devices ((key, devices) ∷ groups) = devices ++ all_devices groups

-- The cards with an id are taken out of the document first, the others stay.
unfoldable pub existing_items : List Card → Map Card → Map Card
existing_items [] m = m
existing_items (w ∷ ws) m =
    existing_items ws (if truthy (card_id w) then put m (card_id w) w else m)

abbrev stay : List Card → List Card
stay [] = []
stay (w ∷ ws) = let rest = stay ws in if truthy (card_id w) then rest else w ∷ rest

-- `updateDeviceCardStatus`
abbrev pub update_device_card_status : Device → Card → Card
update_device_card_status device w = record w {
  udid = get_device_api_udid device;
  status = or_else device.status w.status;
}

-- `createDeviceCard`
abbrev pub create_device_card : Device → Card
create_device_card device = record {
  device_id = get_device_id device;
  udid = get_device_api_udid device;
  selected = false;
  status = device.status;
}

abbrev pub has_card : List Card → Str → Bool
has_card [] id = false
has_card (w ∷ ws) id = str_eq w.device_id id || has_card ws id

-- The first card of an id in the grid is brought up to date.
unfoldable pub update_first : Device → Str → List Card → List Card
update_first device id [] = []
update_first device id (w ∷ ws) =
    let rest = update_first device id ws in
    if str_eq w.device_id id then update_device_card_status device w ∷ ws else w ∷ rest

abbrev register : Page → Device → Page
register page device = record page {
  registry = put page.registry (get_device_id device) (get_device_api_udid device);
}

-- A round of the loop of `fillDeviceGrid`: the card is in the grid already, or was taken out before,
-- or is made. The cards that were taken out and are not used yet come along.
unfoldable pub fill_one : Page × Map Card → Device → Page × Map Card
unfolding update_first
fill_one (page, existing) device =
    let id = get_device_id device in
    if has_card page.cards id
    then (record (register page device) { cards = update_first device id page.cards }, existing)
    else (elim (get existing id) [
      | some w ↦ (
        record (register page device) {
          cards = page.cards ++ update_device_card_status device w ∷ [];
        },
        delete existing id,
      )
      | none ↦ (
        record (register page device) {
          cards = page.cards ++ create_device_card device ∷ [];
          states = put page.states (get_device_api_udid device) ConnectionState.disconnected;
        },
        existing,
      )
    ])

unfoldable pub fill_each : Page × Map Card → List Device → Page × Map Card
fill_each st [] = st
fill_each st (d ∷ ds) = fill_each (fill_one st d) ds

-- The connection of an API id, where there is one.
abbrev pub cleanup_if : Page → Str → Page
cleanup_if page api_udid = if truthy api_udid then cleanup_connection page api_udid else page

-- A card that has no id, or one of those in the list.
abbrev pub is_listed : List Str → Card → Bool
is_listed current w = not (truthy (card_id w)) || includes current (card_id w)

-- The other cards of the grid go, with their connection, their state and their entry in the registry.
abbrev forget_card : Page → Card → Page
forget_card page w =
    let api_udid = get_api_udid_for_card page.registry w in
    let cleaned = cleanup_if page api_udid in
    record cleaned {
      states = delete cleaned.states api_udid;
      registry = delete cleaned.registry (card_id w);
    }

unfoldable pub drop_unlisted : List Str → Page → List Card → Page
drop_unlisted current page [] = record page { cards = [] }
drop_unlisted current page (w ∷ ws) =
    let rest = drop_unlisted current page ws in
    let less = drop_unlisted current (forget_card page w) ws in
    if is_listed current w then record rest { cards = w ∷ rest.cards } else less

-- `fillDeviceGrid` on the grid whose cards are those of the page, after the ids in `current` were shown.
unfoldable pub fill_device_grid : List Str → Page × Map Card → List Device → Page × Map Card
unfolding fill_each drop_unlisted
fill_device_grid current st devices =
    let filled = fill_each st devices in
    (drop_unlisted (current ++ map get_device_id devices) filled.0 filled.0.cards, filled.1)

-- The cards that were not used lose their connection.
unfoldable pub drop_unused : Page → Map Card → Page
drop_unused page [] = page
drop_unused page ((id, w) ∷ m) =
    drop_unused (cleanup_if page (get_api_udid_for_card page.registry w)) m

-- The sections of the document by their endpoint, with the cards in the grid of each.
abbrev pub Sections : Type 0
Sections = Map (List Card)

abbrev pub cards_at : Sections → Str → List Card
cards_at sections key = elim (get sections key) [ none ↦ [] | some ws ↦ ws ]

abbrev pub cards_in : Sections → List Card
cards_in [] = []
cards_in ((key, ws) ∷ sections) = ws ++ cards_in sections

abbrev pub stay_in : Sections → Sections
stay_in [] = []
stay_in ((key, ws) ∷ sections) = (key, stay ws) ∷ stay_in sections

-- What the rounds of the loop over the sections share. The cards of the page are those of the grid that
-- is filled.
pub record Drawing : Type 0 where
  pub sections : Sections
  pub page : Page
  pub existing : Map Card
  pub current : List Str

-- The section of the key is found, or is made and put behind the others.
unfoldable pub draw_section : Drawing → Str → List Device → Drawing
unfolding fill_device_grid
draw_section dr key devices =
    let st =
      fill_device_grid dr.current (record dr.page { cards = cards_at dr.sections key }, dr.existing)
        devices in
    record {
      sections = put dr.sections key st.0.cards;
      page = st.0;
      existing = st.1;
      current = dr.current ++ map get_device_id devices;
    }

unfoldable pub draw_sections : Drawing → List (Str × List Device) → Drawing
unfolding draw_section
draw_sections dr [] = dr
draw_sections dr ((key, devices) ∷ groups) = draw_sections (draw_section dr key devices) groups

-- A section goes that has no key in the order shown, or no card and no endpoint.
abbrev pub is_kept : List Str → List Str → Str → List Card → Bool
is_kept order keys key [] = includes keys key && includes order key
is_kept order keys key (w ∷ ws) = includes keys key

unfoldable pub keep_sections : List Str → List Str → Sections → Sections
keep_sections order keys [] = []
keep_sections order keys ((key, ws) ∷ sections) =
    let rest = keep_sections order keys sections in
    if is_kept order keys key ws then (key, ws) ∷ rest else rest

-- `viewMode`, with what `ensureDevicesListRoot` leaves of the document for it.
pub data ViewMode : Type 0 where
  single_grid : ViewMode
  sections : Sections → ViewMode

-- `renderDevicesList`, with the keys of the known endpoints and the groups of devices.
unfoldable pub render_devices_list :
    Page → ViewMode → List Str → List (Str × List Device) → Page × ViewMode
unfolding fill_device_grid drop_unused existing_items draw_sections keep_sections
render_devices_list page single_grid order groups =
    let st =
      fill_device_grid [] (record page { cards = stay page.cards }, existing_items page.cards [])
        (all_devices groups) in
    (drop_unused st.0 st.1, single_grid)
render_devices_list page (sections s) order groups =
    let dr =
      draw_sections
        (record {
          sections = stay_in s;
          page = page;
          existing = existing_items page.cards [];
          current = [];
        })
        groups in
    let kept = keep_sections order (map (λ g. g.0) groups) dr.sections in
    (record (drop_unused dr.page dr.existing) { cards = cards_in kept }, sections kept)
