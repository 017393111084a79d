-- ===== src/Status.antt =====
-- What the back end reports of devices (assets/web/static/js/app.js): `handleWebSocketMessage`,
-- `updateDeviceStatus`, the connection states and the end of the web socket.
pub mod Offline
pub mod Replug
pub mod Renamed
use ms_robot.Base.Maps.{Map, put, get, delete, has}
use ms_robot.Base.{
  Bool, length, false, Str, List, Option, ℕ, some, suc, str_eq, ◌∷◌, none, zero, [], or_else, codes,
  true, map, if◌then◌else◌, truthy, not, ◌&&◌, ◌||◌,
}
use ms_robot.Session.{Page, Card, ConnectionState, Connection}
use ms_robot.Identity.{
  Device, build_api_udid_from_device_data, find_wrappers_by_serial, matches_serial, registered,
  get_device_status,
}

-- The lamp before a device's name.
pub data Lamp : Type 0 where
  yellow green red : Lamp

-- `statusIcon`: the connection's lamp, or the status' lamp while there is no connection.
abbrev status_icon : Option ConnectionState → Str → Lamp
status_icon (some ConnectionState.connecting) status = yellow
status_icon (some ConnectionState.connected) status = green
status_icon _ status =
    if str_eq status (codes "online")
    then green
    else if str_eq status (codes "offline")
    then red
    else yellow

unfoldable pub set_device_connection_state : Page → Str → ConnectionState → Page
set_device_connection_state page udid state = record page { states = put page.states udid state }

-- What `cleanupWebRTCConnection` does to the page's maps.
unfoldable pub cleanup_connection : Page → Str → Page
unfolding set_device_connection_state
cleanup_connection page udid = elim (get page.connections udid) [
  | none ↦ page
  | some conn ↦
      set_device_connection_state (record page { connections = delete page.connections udid }) udid
        ConnectionState.disconnected
]

-- The state moves with the apiUdid.
move_state : Map ConnectionState → Str → Str → Map ConnectionState
move_state states old new = elim (get states old) [
  | none ↦ states
  | some s ↦ if str_eq old new then states else delete (put states new s) old
]

abbrev has_session : Option ConnectionState → Bool
has_session (some ConnectionState.connecting) = true
has_session (some ConnectionState.connected) = true
has_session _ = false

-- `a ?? b`
abbrev first_state : Option ConnectionState → Option ConnectionState → Option ConnectionState
first_state none b = b
first_state (some s) b = some s

abbrev is_offline : Device → Bool
is_offline device = str_eq device.status (codes "offline")

abbrev old_api_udid : Page → Str → Card → Str
old_api_udid page udid w = registered (get page.registry w.device_id) (or_else w.udid udid)

abbrev pub new_api_udid : Device → Card → Str
new_api_udid device w = build_api_udid_from_device_data device w.device_id

-- The page with a card's new apiUdid.
rename : Page → Str → Device → Card → Page
rename page udid device w = record page {
  registry = put page.registry w.device_id (new_api_udid device w);
  states = move_state page.states (old_api_udid page udid w) (new_api_udid device w);
}

-- A device that went away loses its connection.
drop_session : Page → Str → Page
drop_session page api_udid =
    if has page.connections api_udid
    then cleanup_connection page api_udid
    else set_device_connection_state page api_udid ConnectionState.disconnected

-- One round of the loop of `updateDeviceStatus`, without the card itself.
pub update_maps : Page → Str → Device → Card → Page
update_maps page udid device w =
    let state =
      first_state (get page.states (old_api_udid page udid w))
        (get page.states (new_api_udid device w)) in
    if is_offline device && has_session state
    then drop_session (rename page udid device w) (new_api_udid device w)
    else rename page udid device w

update_all : Page → Str → Device → List Card → Page
update_all page udid device [] = page
update_all page udid device (w ∷ ws) = update_all (update_maps page udid device w) udid device ws

-- The card in that round.
update_card : Str → Device → Card → Card
update_card udid device w =
    if matches_serial udid w
    then record w { udid = new_api_udid device w; status = or_else device.status w.status }
    else w

-- `updateDeviceStatus`; the flag asks for the list of devices, which has a device that is not shown.
pub update_device_status : Page → Str → Device → Page × Bool
update_device_status page udid device = elim (find_wrappers_by_serial page.cards udid) [
  | [] ↦ (page, str_eq device.status (codes "online"))
  | w ∷ ws ↦ (
    record (update_all page udid device (w ∷ ws)) {
      cards = map (update_card udid device) page.cards;
    },
    false,
  )
]

-- A message of the web socket, by its `type`.
pub data Message : Type 0 where
  device_status : Str → Option Device → Message
  endpoint_status : Str → Str → Message
  endpoints_changed other_message : Message

-- What a message does: the page, whether the lists are loaded again, the old and new status that the
-- callbacks get, and the text of an endpoint's label.
pub record Reaction : Type 0 where
  pub page : Page
  pub reload : Bool
  pub changed : Option (Str × Str)
  pub label : Option (Str × Str)

abbrev quiet : Page → Reaction
quiet page = record { page = page; reload = false; changed = none; label = none }

-- `message.data?.status`
abbrev new_status : Option Device → Str
new_status none = []
new_status (some device) = device.status

-- The callbacks hear of a change from or to `online` or `offline`.
status_change : Str → Str → Option (Str × Str)
status_change old new =
    if not (str_eq old new)
      && ((str_eq old (codes "offline") || str_eq new (codes "offline"))
          || (str_eq old (codes "online") || str_eq new (codes "online")))
    then some (old, new)
    else none

update_if : Page → Str → Option Device → Page × Bool
update_if page udid none = (page, false)
update_if page udid (some device) = update_device_status page udid device

-- The label of an endpoint's status; a status without a text of its own is shown as it is.
status_text : Str → Str → Str
status_text lower status =
    if str_eq lower (codes "ok")
    then []
    else if str_eq lower (codes "reconnecting")
    then 0xD83D ∷ 0xDFE1 ∷ codes " 重连中"
    else if str_eq lower (codes "reconnect_failed")
    then 0xD83D ∷ 0xDD34 ∷ codes " 重连失败"
    else if str_eq lower (codes "removed")
    then 0xD83D ∷ 0xDD34 ∷ codes " 已移除"
    else status

module _ (to_lower_case : Str → Str) (has_label : Str → Bool) where
  pub handle_web_socket_message : Page → Message → Reaction
  handle_web_socket_message page (device_status udid device) =
      let done = update_if page udid device in
      record {
        page = done.0;
        reload = done.1;
        changed = status_change (get_device_status page.cards udid) (new_status device);
        label = none;
      }
  handle_web_socket_message page (endpoint_status endpoint status) =
      if truthy endpoint && has_label endpoint
      then record (quiet page) {
        label = some (endpoint, status_text (to_lower_case status) status);
      }
      else quiet page
  handle_web_socket_message page endpoints_changed = record (quiet page) { reload = true }
  handle_web_socket_message page other_message = quiet page

-- The data of a device whose back end is gone, as `ws.onclose` makes it of its card; the name, the
-- platform and the model, which the card has already, are left out.
abbrev gone : Str → Device
gone udid = record {
  udid = udid;
  name = [];
  transport_id = none;
  endpoint_id = [];
  status = codes "offline";
}

close_card : Page → Option Card → Page
close_card page none = page
close_card page (some w) =
    if truthy w.udid then (update_device_status page w.udid (gone w.udid)).0 else page

abbrev nth : List Card → ℕ → Option Card
nth [] n = none
nth (w ∷ ws) zero = some w
nth (w ∷ ws) (suc n) = nth ws n

-- The loop over the cards of the document, each read when its turn comes.
close_from : ℕ → ℕ → Page → Page
close_from zero n page = page
close_from (suc left) n page = close_from left (suc n) (close_card page (nth page.cards n))

-- `ws.onclose`: with no card there is nothing to update.
pub on_close : Page → Page
on_close page = close_from (length page.cards) 0 page
