-- ===== src/Control/Send/Targets.antt =====
-- Who gets a message.
use mathlib.Core.List.{map-append}
use ms_robot.Control.Device.{send_message, handle_event}
use ms_robot.Wire.Message.{Command}
use ms_robot.Base.Maps.{get}
use ms_robot.Number.{Number}
use ms_robot.Control.Send.{
  send_control_message, send_raw_to_all, is_empty, broadcast_event_to_devices, broadcast_to,
  get_selected_connected_devices, send_raw_to, ControlEvent, sync_targets, deliver, Delivery,
  uint8_array, parse_control_message, get_device_id_for_api_udid, includes, filter_truthy,
  get_api_udid,
}
use ms_robot.Session.{Page, Connection}
use ms_robot.Base.{
  ℕ, List, Str, Option, if◌then◌else◌, map, Bool, not, false, some, ◌≡◌, ◌∷◌, [], none, refl, arith,
  true, ◌||◌, ◌&&◌,
}

-- A device with a data channel that is open and takes what is sent.
abbrev conn_accepts : Option Connection → Bool
conn_accepts none = false
conn_accepts (some conn) = send_message conn

abbrev pub accepts : Page → Str → Bool
accepts page udid = conn_accepts (get page.connections udid)

abbrev pub filter_str : (Str → Bool) → List Str → List Str
filter_str p [] = []
filter_str p (s ∷ ss) = if p s then s ∷ filter_str p ss else filter_str p ss

abbrev pub devices : List (Str × List ℕ) → List Str
devices sent = map (λ m. m.0) sent

-- The devices that a command is meant for.
abbrev pub targets : Page → Str → List Str
targets page udid =
    if not page.sync_enabled
    then udid ∷ []
    else if is_empty (get_selected_connected_devices page)
    then []
    else sync_targets page udid

send_raw-devices :
    (page : Page) (message : List ℕ) (udids : List Str)
    → devices (send_raw_to_all page message udids).sent ≡ filter_str (accepts page) udids
unfolding send_raw_to_all send_raw_to
send_raw-devices page message [] = refl
send_raw-devices page message (udid ∷ udids) = ground (arith, send_raw-devices page message udids)

broadcast_to-devices :
    (F : Number) (page : Page) (event : ControlEvent F.Num) (type : ℕ) (original : List ℕ)
    (udid : Str)
    → devices (broadcast_to F page event type original udid).sent
      ≡ filter_str (accepts page) (udid ∷ [])
unfolding broadcast_to handle_event send_message
broadcast_to-devices F page event type original udid = ground arith

broadcast-devices :
    (F : Number) (page : Page) (event : ControlEvent F.Num) (type : ℕ) (original : List ℕ)
    (udids : List Str)
    → devices (broadcast_event_to_devices F page event type original udids).sent
      ≡ filter_str (accepts page) udids
unfolding broadcast_event_to_devices
broadcast-devices F page event type original [] = refl
broadcast-devices F page event type original (udid ∷ udids) =
    rw
      (
        map-append,
        broadcast_to-devices F page event type original udid,
        broadcast-devices F page event type original udids,
      )
      (ground arith)

deliver-devices :
    (F : Number) (page : Page) (c : Command) (udids : List Str)
    → devices (deliver F page c udids).sent ≡ filter_str (accepts page) udids
unfolding deliver
deliver-devices F page c udids = on_event (parse_control_message F c.message_type c.payload)
  where
    on_event :
        (o : Option (ControlEvent F.Num))
        → devices
            (elim o as (λ x. Delivery) [
              | none ↦ send_raw_to_all page (uint8_array (c.message_type ∷ c.payload)) udids
              | some event ↦ broadcast_event_to_devices F page event c.message_type c.payload udids
            ]).sent
          ≡ filter_str (accepts page) udids
    on_event none = send_raw-devices page _ udids
    on_event (some event) = broadcast-devices F page event _ _ udids

-- A command reaches exactly those of its targets whose channel takes it, each once and in order,
-- whether it is relayed as an event or sent as it is.
pub devices-send_control_message :
    (F : Number) (page : Page) (c : Command)
    → devices (send_control_message F page c).sent
      ≡ filter_str (accepts page) (targets page c.device_udid)
unfolding send_control_message
devices-send_control_message F page c = ground (
  arith,
  deliver-devices F page c (c.device_udid ∷ []),
  deliver-devices F page c (sync_targets page c.device_udid),
)

-- The same message for each of some devices.
abbrev pub each : List ℕ → List Str → List (Str × List ℕ)
each message [] = []
each message (t ∷ ts) = (t, message) ∷ each message ts

send_raw-each :
    (page : Page) (message : List ℕ) (udids : List Str)
    → (send_raw_to_all page message udids).sent ≡ each message (filter_str (accepts page) udids)
unfolding send_raw_to_all send_raw_to
send_raw-each page message [] = refl
send_raw-each page message (udid ∷ udids) = ground (arith, send_raw-each page message udids)

deliver-raw :
    (F : Number) (page : Page) (c : Command) (udids : List Str)
    → parse_control_message F c.message_type c.payload ≡ none
    → (deliver F page c udids).sent
      ≡ each (uint8_array (c.message_type ∷ c.payload)) (filter_str (accepts page) udids)
unfolding deliver
deliver-raw F page c udids h = rw (deliver, h) (send_raw-each page _ udids)

-- A command that is no event is sent as it is.
pub sent-raw :
    (F : Number) (page : Page) (c : Command)
    → parse_control_message F c.message_type c.payload ≡ none
    → (send_control_message F page c).sent
      ≡ each
          (uint8_array (c.message_type ∷ c.payload))
          (filter_str (accepts page) (targets page c.device_udid))
unfolding send_control_message
sent-raw F page c h = ground (
  arith,
  deliver-raw F page c (c.device_udid ∷ []) h,
  deliver-raw F page c (sync_targets page c.device_udid) h,
)

-- Synchronous operation is off, or some selected device has an open channel.
abbrev pub can_send : Page → Bool
can_send page = not page.sync_enabled || not (is_empty (get_selected_connected_devices page))

pub page-send :
    (F : Number) (page : Page) (c : Command)
    → can_send page ≡ true
    → (send_control_message F page c).page ≡ page
unfolding send_control_message
page-send F page c h = ground arith

pub send-switch_off :
    (F : Number) (page : Page) (c : Command)
    → can_send page ≡ false
    → ((send_control_message F page c).page ≡ record page { sync_enabled = false })
      × ((send_control_message F page c).sent ≡ [])
unfolding send_control_message
send-switch_off F page c h = ground arith

-- All selected devices with an open channel, by their apiUdids.
abbrev pub selected_targets : Page → List Str
selected_targets page =
    filter_truthy (map (get_api_udid page.registry) (get_selected_connected_devices page))

-- The device is one of the selected ones, in synchronous operation.
abbrev pub is_synced : Page → Str → Bool
is_synced page udid =
    page.sync_enabled
    && includes (get_selected_connected_devices page) (get_device_id_for_api_udid page udid)

includes-is_empty : (xs : List Str) (s : Str) → includes xs s ≡ true → is_empty xs ≡ false
includes-is_empty [] s h = ground arith
includes-is_empty (x ∷ xs) s h = refl

pub targets-is_synced :
    (page : Page) (udid : Str)
    → is_synced page udid ≡ true
    → (targets page udid ≡ selected_targets page) × (can_send page ≡ true)
unfolding sync_targets
targets-is_synced page udid h = ground (
  arith,
  includes-is_empty (get_selected_connected_devices page) (get_device_id_for_api_udid page udid),
)
