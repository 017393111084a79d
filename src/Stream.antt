-- ===== src/Stream.antt =====
-- The life of one device's WebRTC stream (assets/web/static/js/app.js): `startDeviceStream`,
-- `initWebRTCStream` up to its first offer, the handlers of the data channel, of the peer connection
-- and of its tracks, `cleanupWebRTCConnection` and the ways to disconnect.
use ms_robot.Identity.{find_wrapper_by_api_udid, get_api_udid_for_card}
use ms_robot.Status.{set_device_connection_state, cleanup_connection}
use ms_robot.Base.Maps.{put, get}
use ms_robot.Base.{
  ℕ, Str, Option, ◌-◌, if◌then◌else◌, [], Bool, some, str_eq, none, codes, truthy, ◌+◌, ◌==◌, false,
  true, ◌&&◌, refl, inl, inr, ◌∷◌, zero, suc, arith,
}
use ms_robot.Session.{Page, Connection, ConnectionState, get_device_connection_state, Channel}
pub mod Monitor
pub mod Steps
pub mod Invariant
pub mod Kept
pub mod Reachable
pub mod Connects
pub mod Stuck
pub mod Overlap
pub mod Offer
pub mod Candidates
pub mod Servers
pub mod Playback

-- `RTCPeerConnection.connectionState` and `iceConnectionState`
pub data PeerState : Type 0 where
  fresh connecting connected disconnected failed closed : PeerState

pub data IceState : Type 0 where
  fresh checking connected completed disconnected failed closed : IceState

pub data TrackKind : Type 0 where
  video audio : TrackKind

-- The page, and what is under way for one device: `fetching` requests of `/api/device/<udid>`,
-- `waiting` runs of `initWebRTCStream` for their ICE servers, `offering` runs in their loop of offers.
-- Peer connections are numbered, the next one gets `next`. `bound n`: peer connection n has its
-- handlers; `listening n`: n has a control channel with handlers that is not closed yet.
pub record World : Type 0 where
  pub page : Page
  pub fetching : ℕ
  pub waiting : ℕ
  pub offering : ℕ
  pub next : ℕ
  pub bound : ℕ → Bool
  pub listening : ℕ → Bool

abbrev pub unset : (ℕ → Bool) → ℕ → ℕ → Bool
unset f n j = if n == j then false else f j

abbrev pub set : (ℕ → Bool) → ℕ → ℕ → Bool
set f n j = if n == j then true else f j

abbrev pub no_channel : Option Channel → (ℕ → Bool) → ℕ → Bool
no_channel none f = f
no_channel (some c) f = unset f c.peer

-- A new entry of the map: no channel, and a video without a size.
abbrev pub new_connection : ℕ → Connection
new_connection n = record {
  peer = n;
  session_id = [];
  data_channel = none;
  video = some (record { width = 0; height = 0 });
}

module _ (device_udid : Str) where
  abbrev pub connection : World → Option Connection
  connection w = get w.page.connections device_udid

  abbrev pub set_state : World → ConnectionState → World
  set_state w s = record w { page = set_device_connection_state w.page device_udid s }

  abbrev pub save : World → Connection → World
  save w conn = record w {
    page = record w.page { connections = put w.page.connections device_udid conn };
  }

  -- `cleanupWebRTCConnection`: the handlers of the peer connection and of its saved channel go too.
  unfoldable pub cleanup_webrtc_connection : World → World
  cleanup_webrtc_connection w = elim (connection w) [
    | none ↦ w
    | some conn ↦ record w {
      page = cleanup_connection w.page device_udid;
      bound = unset w.bound conn.peer;
      listening = no_channel conn.data_channel w.listening;
    }
  ]

  -- `startDeviceStream` up to its request.
  unfoldable pub start_device_stream : World → World
  start_device_stream w = elim (connection w) [
    | none ↦ record (set_state w ConnectionState.connecting) { fetching = w.fetching + 1 }
    | some conn ↦ w
  ]

  -- The request fails: only the text of the card changes.
  unfoldable pub info_failed : World → World
  info_failed w = record w { fetching = w.fetching - 1 }

  -- The request is answered: `initWebRTCStream` until it waits for the ICE servers.
  unfoldable pub info_arrived : World → World
  unfolding cleanup_webrtc_connection
  info_arrived w = record (cleanup_webrtc_connection w) {
    fetching = w.fetching - 1;
    waiting = w.waiting + 1;
  }

  -- `initWebRTCStream` from there to its first offer.
  unfoldable pub ice_servers_arrived : World → World
  ice_servers_arrived w = record (save w (new_connection w.next)) {
    waiting = w.waiting - 1;
    offering = w.offering + 1;
    next = w.next + 1;
    bound = set w.bound w.next;
  }

  -- The loop of offers returns, with an answer or since it was stopped.
  unfoldable pub offer_ended : World → World
  offer_ended w = record w { offering = w.offering - 1 }

  -- The `catch` of `initWebRTCStream`.
  unfoldable pub init_failed : World → World
  unfolding cleanup_webrtc_connection
  init_failed w = cleanup_webrtc_connection (set_state w ConnectionState.disconnected)

  -- The same `catch` for what is thrown before there is an entry: by the request for the ICE servers or
  -- by `new RTCPeerConnection`.
  unfoldable pub ice_servers_failed : World → World
  unfolding init_failed
  ice_servers_failed w = init_failed (record w { waiting = w.waiting - 1 })

  -- The channel of an entry; without an entry it is only reported.
  unfoldable pub save_channel : World → Channel → World
  save_channel w channel = elim (connection w) [
    | none ↦ w
    | some conn ↦ save w (record conn { data_channel = some channel })
  ]

  -- `pc.ondatachannel` of peer connection `channel.peer`.
  unfoldable pub on_data_channel : World → Str → Channel → World
  unfolding save_channel
  on_data_channel w label channel =
      if str_eq label (codes "control")
      then record (save_channel w channel) { listening = set w.listening channel.peer }
      else w

  -- `channel.onopen`
  unfoldable pub on_open : World → Channel → World
  unfolding save_channel
  on_open w channel = set_state (save_channel w channel) ConnectionState.connected

  -- `channel.onclose`; a closed channel has no event any more.
  unfoldable pub on_channel_close : World → ℕ → World
  on_channel_close w n = elim (connection w) [
    | none ↦ record w { listening = unset w.listening n }
    | some conn ↦
        record (set_state (save w (record conn { data_channel = none }))
          ConnectionState.disconnected) { listening = unset w.listening n }
  ]

  -- `pc.onconnectionstatechange`
  unfoldable pub on_connection_state_change : World → PeerState → World
  unfolding cleanup_webrtc_connection
  on_connection_state_change w PeerState.closed = cleanup_webrtc_connection w
  on_connection_state_change w PeerState.failed = cleanup_webrtc_connection w
  on_connection_state_change w _ = w

  -- `pc.oniceconnectionstatechange`
  unfoldable pub on_ice_connection_state_change : World → IceState → World
  unfolding cleanup_webrtc_connection
  on_ice_connection_state_change w IceState.failed = cleanup_webrtc_connection w
  on_ice_connection_state_change w _ = w

  -- `track.onended`
  unfoldable pub on_ended : World → TrackKind → World
  unfolding cleanup_webrtc_connection
  on_ended w TrackKind.video = cleanup_webrtc_connection w
  on_ended w TrackKind.audio = w

  -- `requestDisconnectConfirmation`, once the user has agreed.
  unfoldable pub confirm_disconnect : World → World
  unfolding cleanup_webrtc_connection
  confirm_disconnect w = cleanup_webrtc_connection (set_state w ConnectionState.disconnected)

  -- What that sends to the back end: the id of this page's session, where it has one.
  abbrev pub disconnect_request : World → Option Str
  disconnect_request w = elim (connection w) [
    | none ↦ none
    | some conn ↦ if truthy conn.session_id then some conn.session_id else none
  ]

  -- A device's part of the button that disconnects all selected devices.
  unfoldable pub batch_disconnect : World → World
  unfolding confirm_disconnect
  batch_disconnect w = elim (get_device_connection_state w.page device_udid) [
    | ConnectionState.disconnected ↦ w
    | _ ↦ confirm_disconnect w
  ]

  -- What `updateDeviceStatus` does to the stream when the device goes offline under its apiUdid.
  unfoldable pub went_offline : World → World
  unfolding cleanup_webrtc_connection
  went_offline w = elim (get_device_connection_state w.page device_udid) [
    | ConnectionState.disconnected ↦ w
    | _ ↦ elim (connection w) [
      | none ↦ set_state w ConnectionState.disconnected
      | some conn ↦ cleanup_webrtc_connection w
    ]
  ]

-- What the button of the card's tool bar does: start a stream, ask before it disconnects, or nothing.
pub data Click : Type 0 where
  start_stream ask : Str → Click
  nothing : Click

-- `handleDisconnectClick`: with the card of the document, whether the card has its start button and
-- whether it has its frame for the video.
unfoldable pub handle_disconnect_click : Page → Str → Bool → Bool → Click
handle_disconnect_click page device_udid has_button has_frame =
    elim (get_device_connection_state page device_udid) [
      | ConnectionState.disconnected ↦ elim (find_wrapper_by_api_udid page device_udid) [
        | none ↦ nothing
        | some w ↦
            if has_button
            then (let udid = get_api_udid_for_card page.registry w in
                if truthy udid && has_frame then start_stream udid else nothing)
            else if has_frame
            then start_stream device_udid
            else nothing
      ]
      | _ ↦ ask device_udid
    ]
