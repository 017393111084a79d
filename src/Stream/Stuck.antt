-- ===== src/Stream/Stuck.antt =====
-- Where a device's stream is stuck: its card offers to connect, and nothing comes of it.
use ms_robot.Stream.Invariant.{state-set, connection-save}
use ms_robot.Stream.{
  start_device_stream, ice_servers_arrived, on_channel_close, World, confirm_disconnect, Connection,
  cleanup_webrtc_connection, connection, ConnectionState, save, new_connection, set_state,
}
use ms_robot.Base.{refl, Str, ℕ, ◌≡◌, some, none, ◌∙◌}
use ms_robot.Session.{get_device_connection_state}
use ms_robot.Status.{set_device_connection_state}

module _ (device_udid : Str) where
  start-some :
      (w : World) (conn : Connection)
      → connection device_udid w ≡ some conn
      → start_device_stream device_udid w ≡ w
  unfolding start_device_stream
  start-some w conn e = rw (start_device_stream, e) refl

  -- When the control channel of a connection closes, the device is shown as disconnected, but the
  -- connection keeps its entry: starting a stream again changes nothing and sends no request.
  pub start-channel_close :
      (w : World) (conn : Connection) (n : ℕ)
      → connection device_udid w ≡ some conn
      → (get_device_connection_state (on_channel_close device_udid w n).page device_udid
          ≡ ConnectionState.disconnected)
        × (start_device_stream device_udid (on_channel_close device_udid w n)
            ≡ on_channel_close device_udid w n)
  unfolding on_channel_close set_device_connection_state
  start-channel_close w conn n e =
      let saved : Connection = record conn { data_channel = none } in
      (
        rw (on_channel_close, e)
            (state-set device_udid (save device_udid w saved).page ConnectionState.disconnected),
        start-some (on_channel_close device_udid w n) saved
            (rw (on_channel_close, e) (connection-save device_udid w saved)),
      )

  disconnect-none :
      (w : World)
      → connection device_udid w ≡ none
      → confirm_disconnect device_udid w ≡ set_state device_udid w ConnectionState.disconnected
  unfolding confirm_disconnect cleanup_webrtc_connection set_device_connection_state
  disconnect-none w e = rw (cleanup_webrtc_connection, e) refl

  pub servers-connection :
      (w : World)
      → connection device_udid (ice_servers_arrived device_udid w) ≡ some (new_connection w.next)
  unfolding ice_servers_arrived
  servers-connection w = connection-save device_udid w (new_connection w.next)

  servers-state :
      (w : World)
      → get_device_connection_state (ice_servers_arrived device_udid w).page device_udid
        ≡ get_device_connection_state w.page device_udid
  unfolding ice_servers_arrived get_device_connection_state
  servers-state w = refl

  -- A device without an entry that is disconnected before the ICE servers of its stream arrive: the
  -- run goes on all the same, and saves an entry for a device that is shown as disconnected; starting
  -- a stream again changes nothing and sends no request.
  start-confirm_disconnect :
      (w : World)
      → connection device_udid w ≡ none
      → (get_device_connection_state
            (ice_servers_arrived device_udid (confirm_disconnect device_udid w)).page
            device_udid
          ≡ ConnectionState.disconnected)
        × (start_device_stream device_udid
              (ice_servers_arrived device_udid (confirm_disconnect device_udid w))
            ≡ ice_servers_arrived device_udid (confirm_disconnect device_udid w))
  start-confirm_disconnect w e =
      let stopped = set_state device_udid w ConnectionState.disconnected in
      rw (disconnect-none w e) (
        servers-state stopped ∙ state-set device_udid w.page ConnectionState.disconnected,
        start-some (ice_servers_arrived device_udid stopped) (new_connection w.next)
            (servers-connection stopped),
      )
