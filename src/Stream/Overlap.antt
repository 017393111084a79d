-- ===== src/Stream/Overlap.antt =====
-- Two runs of `initWebRTCStream` for one device that wait for their ICE servers at the same time.
use ms_robot.Stream.Stuck.{servers-connection}
use ms_robot.Stream.Connects.{announced-connection, announced-listening, on_open-state}
use ms_robot.Stream.Kept.{cleanup-connection}
use ms_robot.Stream.Steps.{Reach, next, open_channel, here, servers, announce, confirm}
use ms_robot.Stream.{
  on_open, confirm_disconnect, World, ice_servers_arrived, on_data_channel,
  cleanup_webrtc_connection, save_channel, connection, no_channel, set_state, new_connection,
}
use ms_robot.Base.{refl, Str, ℕ, codes, false, ◌≡◌, ◌+◌, true, none, arith, some, ==_iff}
use ms_robot.Status.{set_device_connection_state}
use ms_robot.Session.{get_device_connection_state, Channel, ReadyState, Connection, ConnectionState}

module _ (device_udid : Str) where
  -- The channel of peer connection `n` in state `s`.
  abbrev channel_of : ℕ → ReadyState → Channel
  channel_of n s = record { peer = n; ready_state = s; send_throws = false }

  -- Both runs make their peer connection, the second one's takes the entry.
  abbrev both : World → World
  both w = ice_servers_arrived device_udid (ice_servers_arrived device_udid w)

  -- Both announce their control channel, and the user disconnects.
  abbrev first_announced : World → World
  first_announced w =
      on_data_channel device_udid (both w) (codes "control") (channel_of w.next ReadyState.opening)

  abbrev announced : World → World
  announced w =
      on_data_channel device_udid (first_announced w) (codes "control")
        (channel_of (w.next + 1) ReadyState.opening)

  abbrev pub left_over : World → World
  left_over w = confirm_disconnect device_udid (announced w)

  announced-bound :
      (w : World) (label : Str) (c : Channel)
      → (on_data_channel device_udid w label c).bound ≡ w.bound
  unfolding on_data_channel save_channel
  announced-bound w label c = ground arith

  announced-other :
      (w : World) (c : Channel) (n : ℕ)
      → w.listening n ≡ true
      → (on_data_channel device_udid w (codes "control") c).listening n ≡ true
  unfolding on_data_channel
  announced-other w c n h = ground arith

  cleanup-some :
      (w : World) (conn : Connection)
      → connection device_udid w ≡ some conn
      → (connection device_udid (cleanup_webrtc_connection device_udid w) ≡ none)
        × ((cleanup_webrtc_connection device_udid w).listening
            ≡ no_channel conn.data_channel w.listening)
  unfolding cleanup_webrtc_connection
  cleanup-some w conn e =
      rw (cleanup_webrtc_connection, e) (cleanup-connection device_udid w conn e, refl)

  disconnect-some :
      (w : World) (conn : Connection)
      → connection device_udid w ≡ some conn
      → (connection device_udid (confirm_disconnect device_udid w) ≡ none)
        × ((confirm_disconnect device_udid w).listening ≡ no_channel conn.data_channel w.listening)
  unfolding confirm_disconnect set_device_connection_state
  disconnect-some w conn e =
      cleanup-some (set_state device_udid w ConnectionState.disconnected) conn e

  on_open-none :
      (w : World) (c : Channel)
      → connection device_udid w ≡ none
      → connection device_udid (on_open device_udid w c) ≡ none
  unfolding on_open set_device_connection_state save_channel
  on_open-none w c e = ground (arith, e)

  both-bound : (w : World) → ((both w).bound w.next ≡ true) × ((both w).bound (w.next + 1) ≡ true)
  unfolding ice_servers_arrived
  both-bound w = ground (arith, ==_iff w.next w.next, ==_iff (w.next + 1) (w.next + 1))

  both-connection :
      (w : World) → connection device_udid (both w) ≡ some (new_connection (w.next + 1))
  unfolding ice_servers_arrived
  both-connection w = servers-connection device_udid (ice_servers_arrived device_udid w)

  left_over-lem :
      (w : World)
      → (connection device_udid (left_over w) ≡ none) × ((left_over w).listening w.next ≡ true)
  left_over-lem w =
      let first = channel_of w.next ReadyState.opening in
      let second = channel_of (w.next + 1) ReadyState.opening in
      let conn = new_connection (w.next + 1) in
      let e =
        announced-connection device_udid (first_announced w)
          (record conn { data_channel = some first }) second
          (announced-connection device_udid (both w) conn first (both-connection w)) in
      let d = disconnect-some (announced w) (record conn { data_channel = some second }) e in
      let heard =
        announced-other (first_announced w) second w.next
          (announced-listening device_udid (both w) first) in
      (d.0, rw d.1 (ground (arith, heard, ==_iff (w.next + 1) w.next)))

  left_over-Reach : (w : World) → w.waiting ≡ 2 → Reach device_udid true w (left_over w)
  unfolding ice_servers_arrived
  left_over-Reach w two =
      let first = channel_of w.next ReadyState.opening in
      next
        (next
          (next (next (next here (servers (omega (arith, two)))) (servers (omega (arith, two))))
            (announce (codes "control") first (both-bound w).0))
          (announce (codes "control") (channel_of (w.next + 1) ReadyState.opening)
            (rw (announced-bound (both w) (codes "control") first) (both-bound w).1)))
        confirm

  -- Where two runs for one device wait for their ICE servers at the same time, there is a course of
  -- events after which the device is shown as connected and has no connection: both make a peer
  -- connection, both channels are announced, the user disconnects, and the first channel opens.
  pub overlap-shown :
      (w : World)
      → w.waiting ≡ 2
      → (u : World) × Reach device_udid true w u
        × (get_device_connection_state u.page device_udid ≡ ConnectionState.connected)
        × (connection device_udid u ≡ none)
  overlap-shown w two =
      let c = channel_of w.next ReadyState.open_ in
      let left = left_over-lem w in
      (
        on_open device_udid (left_over w) c,
        next (left_over-Reach w two) (open_channel c left.1),
        on_open-state device_udid (left_over w) c,
        on_open-none (left_over w) c left.0,
      )
