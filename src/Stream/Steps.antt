-- ===== src/Stream/Steps.antt =====
-- The steps of a device's stream: what the user, the back end and the browser can do next.
use ms_robot.Session.{Page, get_device_connection_state, ConnectionState, Channel}
use ms_robot.Stream.{
  World, start_device_stream, get, info_arrived, info_failed, ice_servers_arrived, offer_ended,
  init_failed, on_data_channel, on_open, on_channel_close, PeerState, on_connection_state_change,
  IceState, on_ice_connection_state_change, TrackKind, on_ended, confirm_disconnect,
  batch_disconnect, ice_servers_failed, went_offline, cleanup_webrtc_connection, set_state,
}
use ms_robot.Base.{Str, Bool, ◌<◌, ◌≡◌, ◌||◌, none, ◌==◌, ℕ, true, false}

-- The state of one entry of the maps is the same on both pages.
abbrev pub IsSameFor : Str → Page → Page → Type 0
IsSameFor device_udid p q =
    (get p.connections device_udid ≡ get q.connections device_udid)
    × (get_device_connection_state p device_udid ≡ get_device_connection_state q device_udid)

-- `go_offline` is a status message that leaves the device its apiUdid. `clean_up` is a card that the list
-- of devices drops, or a stalled video; `new_card` is the state of a card that the
-- list makes, or has dropped. `other` is all that
-- leaves the entry and the state as they are; a status message that moves the state to or from another
-- apiUdid is no step. With `overlap` an answer for the device may come while another run of `initWebRTCStream` still waits
-- for its ICE servers. The handlers of a peer connection or channel run only while they are set.
pub data Step (device_udid : Str) (overlap : Bool) : World → World → Type 0 where
  start : {w : World} → Step device_udid overlap w (start_device_stream device_udid w)
  arrive :
      {w : World}
      → 0 < w.fetching
      → overlap || w.waiting == 0 ≡ true
      → Step device_udid overlap w (info_arrived device_udid w)
  fail_info : {w : World} → 0 < w.fetching → Step device_udid overlap w (info_failed device_udid w)
  servers :
      {w : World} → 0 < w.waiting → Step device_udid overlap w (ice_servers_arrived device_udid w)
  end_offer : {w : World} → Step device_udid overlap w (offer_ended device_udid w)
  fail_init : {w : World} → Step device_udid overlap w (init_failed device_udid w)
  announce :
      {w : World} (label : Str) (channel : Channel)
      → w.bound channel.peer ≡ true
      → Step device_udid overlap w (on_data_channel device_udid w label channel)
  open_channel :
      {w : World} (channel : Channel)
      → w.listening channel.peer ≡ true
      → Step device_udid overlap w (on_open device_udid w channel)
  close_channel :
      {w : World} (n : ℕ)
      → w.listening n ≡ true
      → Step device_udid overlap w (on_channel_close device_udid w n)
  change_peer :
      {w : World} (n : ℕ) (s : PeerState)
      → w.bound n ≡ true
      → Step device_udid overlap w (on_connection_state_change device_udid w s)
  change_ice :
      {w : World} (n : ℕ) (s : IceState)
      → w.bound n ≡ true
      → Step device_udid overlap w (on_ice_connection_state_change device_udid w s)
  end_track :
      {w : World} (n : ℕ) (kind : TrackKind)
      → w.bound n ≡ true
      → Step device_udid overlap w (on_ended device_udid w kind)
  confirm : {w : World} → Step device_udid overlap w (confirm_disconnect device_udid w)
  batch : {w : World} → Step device_udid overlap w (batch_disconnect device_udid w)
  fail_servers :
      {w : World} → 0 < w.waiting → Step device_udid overlap w (ice_servers_failed device_udid w)
  go_offline : {w : World} → Step device_udid overlap w (went_offline device_udid w)
  clean_up : {w : World} → Step device_udid overlap w (cleanup_webrtc_connection device_udid w)
  new_card :
      {w : World}
      → Step device_udid overlap w (set_state device_udid w ConnectionState.disconnected)
  other :
      {w : World} (page : Page)
      → IsSameFor device_udid w.page page
      → Step device_udid overlap w (record w { page = page })

-- A device that has no connection and for which nothing is under way.
abbrev pub IsIdle : Str → World → Type 0
IsIdle device_udid w =
    (get w.page.connections device_udid ≡ none)
    × (get_device_connection_state w.page device_udid ≡ ConnectionState.disconnected)
    × (w.fetching ≡ 0)
    × (w.waiting ≡ 0)
    × ((n : ℕ) → w.bound n ≡ false)
    × ((n : ℕ) → w.listening n ≡ false)

pub data Reach (device_udid : Str) (overlap : Bool) (w : World) : World → Type 0 where
  here : Reach device_udid overlap w w
  next :
      {u v : World}
      → Reach device_udid overlap w u
      → Step device_udid overlap u v
      → Reach device_udid overlap w v
