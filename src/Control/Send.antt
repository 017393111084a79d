-- ===== src/Control/Send.antt =====
-- `sendControlMessage` and `broadcastEventToDevices`: a command goes to its device, or in
-- synchronous operation to all selected devices with an open channel.
pub mod Targets
use ms_robot.Wire.Bytes.{uint8_array}
use ms_robot.Control.Device.{is_connected, send_message, handle_event}
use ms_robot.Identity.{get_device_id_for_api_udid, find_all, get_api_udid}
use ms_robot.Base.Maps.{get}
use ms_robot.Wire.Message.{Command}
use ms_robot.Control.Event.{ControlEvent, parse_control_message}
use ms_robot.Number.{Number}
use ms_robot.Session.{
  Page, ConnectionState, Card, Connection, get_device_connection_state, get_device_screen_size,
}
use ms_robot.Base.{
  ℕ, Str, ◌++◌, Option, [], List, some, map, ◌∷◌, if◌then◌else◌, Bool, ◌&&◌, true, false, truthy,
  not, codes, str_eq, none, ◌||◌,
}

-- What one call does: the messages that reach a data channel, with their device, and the devices
-- that get a toast.
pub record Delivery : Type 0 where
  pub sent : List (Str × List ℕ)
  pub affected : List Str

abbrev nothing : Delivery
nothing = record { sent = []; affected = [] }

abbrev only_affected : Str → Delivery
only_affected udid = record { sent = []; affected = udid ∷ [] }

abbrev delivered : Str → List ℕ → Delivery
delivered udid message = record { sent = (udid, message) ∷ []; affected = udid ∷ [] }

abbrev join : Delivery → Delivery → Delivery
join a b = record { sent = a.sent ++ b.sent; affected = a.affected ++ b.affected }

abbrev is_connected_state : ConnectionState → Bool
is_connected_state ConnectionState.connected = true
is_connected_state _ = false

-- The device as far as the page knows: connected by its state, with or without a connection.
abbrev if_connected : Page → Str → Delivery
if_connected page udid =
    if is_connected_state (get_device_connection_state page udid)
    then only_affected udid
    else nothing

-- `conn && conn.dataChannel && conn.dataChannel.readyState === 'open'`
abbrev has_open_channel : Option Connection → Bool
has_open_channel none = false
has_open_channel (some conn) = is_connected conn

abbrev is_empty : List Str → Bool
is_empty [] = true
is_empty (_ ∷ _) = false

-- `list.includes(s)`
abbrev pub includes : List Str → Str → Bool
includes [] s = false
includes (t ∷ ts) s = str_eq t s || includes ts s

-- `list.filter(Boolean)`
abbrev pub filter_truthy : List Str → List Str
filter_truthy [] = []
filter_truthy (s ∷ ss) = if truthy s then s ∷ filter_truthy ss else filter_truthy ss

-- `selectedDevices`: the deviceIds of selected cards whose connection has an open channel.
unfoldable pub selectable : Page → Card → Bool
selectable page w =
    w.selected
    && (truthy w.device_id
        && (let api_udid = get_api_udid page.registry w.device_id in
            truthy api_udid && has_open_channel (get page.connections api_udid)))

unfoldable pub get_selected_connected_devices : Page → List Str
get_selected_connected_devices page = map (λ w. w.device_id) (find_all (selectable page) page.cards)

module _ (F : Number) where
  -- One round of `broadcastEventToDevices`.
  broadcast_to : Page → ControlEvent F.Num → ℕ → List ℕ → Str → Delivery
  broadcast_to page event message_type original udid = elim (get page.connections udid) [
    | none ↦ if_connected page udid
    | some conn ↦
        elim (handle_event F conn (get_device_screen_size page udid) event message_type original) [
          | none ↦ only_affected udid
          | some message ↦ if send_message conn then delivered udid message else nothing
        ]
  ]

  broadcast_event_to_devices : Page → ControlEvent F.Num → ℕ → List ℕ → List Str → Delivery
  broadcast_event_to_devices page event message_type original [] = nothing
  broadcast_event_to_devices page event message_type original (udid ∷ targets) =
      join (broadcast_to page event message_type original udid)
        (broadcast_event_to_devices page event message_type original targets)

-- One round of the loop for a command that is no event.
send_raw_to : Page → List ℕ → Str → Delivery
send_raw_to page message udid = elim (get page.connections udid) [
  | none ↦ if_connected page udid
  | some conn ↦ if send_message conn then delivered udid message else if_connected page udid
]

send_raw_to_all : Page → List ℕ → List Str → Delivery
send_raw_to_all page message [] = nothing
send_raw_to_all page message (udid ∷ targets) =
    join (send_raw_to page message udid) (send_raw_to_all page message targets)

-- The apiUdids of the selected devices, if the source is one of them; else the source alone.
pub sync_targets : Page → Str → List Str
sync_targets page udid =
    let selected = get_selected_connected_devices page in
    if includes selected (get_device_id_for_api_udid page udid)
    then filter_truthy (map (get_api_udid page.registry) selected)
    else udid ∷ []

-- A toast: its text and its device, if it has one.
pub record Outcome : Type 0 where
  pub page : Page
  pub sent : List (Str × List ℕ)
  pub toasts : List (Str × Option Str)

abbrev toast_text : Option Str → Str
toast_text none = []
toast_text (some t) = t

abbrev toasts_for : Option Str → List Str → List (Str × Option Str)
toasts_for toast devices =
    if truthy (toast_text toast) then map (λ d. (toast_text toast, some d)) devices else []

module _ (F : Number) where
  deliver : Page → Command → List Str → Delivery
  deliver page c targets = elim (parse_control_message F c.message_type c.payload) [
    | none ↦ send_raw_to_all page (uint8_array (c.message_type ∷ c.payload)) targets
    | some event ↦ broadcast_event_to_devices F page event c.message_type c.payload targets
  ]

  finish : Page → Command → Delivery → Outcome
  finish page c d = record { page = page; sent = d.sent; toasts = toasts_for c.toast d.affected }

  -- Synchronous operation with no selected device left: it is switched off with a warning, and the
  -- command itself is not sent.
  switch_off : Page → Command → Outcome
  switch_off page c = record {
    page = record page { sync_enabled = false };
    sent = [];
    toasts = (codes "没有选中的已连接设备，已关闭同步操作", none) ∷ toasts_for c.toast (c.device_udid ∷ []);
  }

  pub send_control_message : Page → Command → Outcome
  unfolding finish switch_off
  send_control_message page c =
      if not page.sync_enabled
      then finish page c (deliver page c (c.device_udid ∷ []))
      else if is_empty (get_selected_connected_devices page)
      then switch_off page c
      else finish page c (deliver page c (sync_targets page c.device_udid))
