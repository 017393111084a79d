-- ===== src/Stream/Connects.antt =====
-- A device without a connection can be connected.
use ms_robot.Stream.Steps.{Reach, next, here, Step, arrive, servers, announce, open_channel}
use ms_robot.Stream.Kept.{save_channel-some}
use ms_robot.Stream.Invariant.{connection-save, state-set}
use ms_robot.Session.{ReadyState, get_device_connection_state}
use ms_robot.Base.{refl, Str, codes, ◌+◌, some, ◌≡◌, ◌-◌, false, none, ap, ◌∙◌, true, arith, ==_iff}
use ms_robot.Stream.{
  World, start_device_stream, Connection, connection, ice_servers_arrived, on_open, info_arrived,
  on_data_channel, set_state, Channel, cleanup_webrtc_connection, new_connection, ConnectionState,
  save_channel,
}
use ms_robot.Status.{set_device_connection_state}

-- The control channel of the next peer connection.
abbrev pub control_channel : World → ReadyState → Channel
control_channel w s = record { peer = w.next; ready_state = s; send_throws = false }

module _ (device_udid : Str) where
  -- The page's part of a connection that succeeds: the request, its answer, the ICE servers, the
  -- control channel of the peer connection and its `onopen`.
  unfoldable pub connect_run : World → World
  unfolding start_device_stream info_arrived ice_servers_arrived on_data_channel on_open
  connect_run w =
      on_open device_udid
        (on_data_channel device_udid
          (ice_servers_arrived device_udid
            (info_arrived device_udid (start_device_stream device_udid w)))
          (codes "control") (control_channel w ReadyState.opening))
        (control_channel w ReadyState.open_)

  start-none :
      (w : World)
      → connection device_udid w ≡ none
      → start_device_stream device_udid w
        ≡ record (set_state device_udid w ConnectionState.connecting) { fetching = w.fetching + 1 }
  unfolding start_device_stream
  start-none w e = rw (start_device_stream, e) refl

  arrived-none :
      (w : World)
      → connection device_udid w ≡ none
      → info_arrived device_udid w ≡ record w { fetching = w.fetching - 1; waiting = w.waiting + 1 }
  unfolding info_arrived cleanup_webrtc_connection
  arrived-none w e = rw (cleanup_webrtc_connection, e) refl

  -- The page's entry once the channel is open.
  abbrev pub opened : World → Connection
  opened w = record (new_connection w.next) {
    data_channel = some (control_channel w ReadyState.open_);
  }

  -- The state before the control channel is announced.
  abbrev called : World → World
  called w =
      ice_servers_arrived device_udid (record (set_state device_udid w ConnectionState.connecting) {
        fetching = w.fetching + 1 - 1;
        waiting = w.waiting + 1;
      })

  called-run :
      (w : World)
      → connection device_udid w ≡ none
      → ice_servers_arrived device_udid
          (info_arrived device_udid (start_device_stream device_udid w))
        ≡ called w
  unfolding set_device_connection_state
  called-run w e = ap (ice_servers_arrived device_udid) (
      ap (info_arrived device_udid) (start-none w e)
      ∙ arrived-none
          (record (set_state device_udid w ConnectionState.connecting) {
            fetching = w.fetching + 1;
          })
          e)

  run-called :
      (w : World)
      → connection device_udid w ≡ none
      → connect_run w
        ≡ on_open device_udid
            (on_data_channel device_udid
              (called w)
              (codes "control")
              (control_channel w ReadyState.opening))
            (control_channel w ReadyState.open_)
  unfolding connect_run
  run-called w e =
      ap
        (λ u.
          on_open device_udid
            (on_data_channel device_udid u (codes "control") (control_channel w ReadyState.opening))
            (control_channel w ReadyState.open_))
        (called-run w e)

  called-connection : (w : World) → connection device_udid (called w) ≡ some (new_connection w.next)
  unfolding ice_servers_arrived
  called-connection w =
      connection-save device_udid
        (record (set_state device_udid w ConnectionState.connecting) {
          fetching = w.fetching + 1 - 1;
          waiting = w.waiting + 1;
        })
        (new_connection w.next)

  saved-connection :
      (w : World) (conn : Connection) (c : Channel)
      → connection device_udid w ≡ some conn
      → connection device_udid (save_channel device_udid w c)
        ≡ some (record conn { data_channel = some c })
  saved-connection w conn c e =
      rw (save_channel-some device_udid w conn c e)
        (connection-save device_udid w (record conn { data_channel = some c }))

  pub on_open-state :
      (w : World) (c : Channel)
      → get_device_connection_state (on_open device_udid w c).page device_udid
        ≡ ConnectionState.connected
  unfolding on_open
  on_open-state w c =
      state-set device_udid (save_channel device_udid w c).page ConnectionState.connected

  on_open-connection :
      (w : World) (conn : Connection) (c : Channel)
      → connection device_udid w ≡ some conn
      → connection device_udid (on_open device_udid w c)
        ≡ some (record conn { data_channel = some c })
  unfolding on_open set_device_connection_state
  on_open-connection w conn c e = saved-connection w conn c e

  pub announced-connection :
      (w : World) (conn : Connection) (c : Channel)
      → connection device_udid w ≡ some conn
      → connection device_udid (on_data_channel device_udid w (codes "control") c)
        ≡ some (record conn { data_channel = some c })
  unfolding on_data_channel
  announced-connection w conn c e = saved-connection w conn c e

  pub announced-listening :
      (w : World) (c : Channel)
      → (on_data_channel device_udid w (codes "control") c).listening c.peer ≡ true
  unfolding on_data_channel
  announced-listening w c = ground (arith, ==_iff c.peer c.peer)

  called-bound : (w : World) → (called w).bound w.next ≡ true
  unfolding ice_servers_arrived
  called-bound w = ground (arith, ==_iff w.next w.next)

  run-bound :
      (w : World)
      → connection device_udid w ≡ none
      → (ice_servers_arrived device_udid
            (info_arrived device_udid (start_device_stream device_udid w))).bound
          w.next
        ≡ true
  run-bound w e = rw (called-run w e) (called-bound w)

  connect_run-Reach :
      (w : World)
      → connection device_udid w ≡ none
      → w.waiting ≡ 0
      → Reach device_udid false w (connect_run w)
  unfolding connect_run info_arrived
  connect_run-Reach w e calm =
      next
        (next
          (next
            (next (next here Step.start)
              (arrive (rw (start-none w e) (omega arith)) (rw (start-none w e, calm) refl)))
            (servers (omega arith)))
          (announce (codes "control") (control_channel w ReadyState.opening) (run-bound w e)))
        (open_channel (control_channel w ReadyState.open_) (
          announced-listening
            (ice_servers_arrived device_udid
              (info_arrived device_udid (start_device_stream device_udid w)))
            (control_channel w ReadyState.opening)))

  -- A device without an entry, for which no run waits for its ICE servers, can be connected without
  -- an overlap: the request, its answer, the ICE servers and the control channel lead to the state
  -- `connected` and to an entry with the open channel of the new peer connection.
  pub connect_run-connected :
      (w : World)
      → connection device_udid w ≡ none
      → w.waiting ≡ 0
      → Reach device_udid false w (connect_run w)
        × (get_device_connection_state (connect_run w).page device_udid ≡ ConnectionState.connected)
        × (connection device_udid (connect_run w) ≡ some (opened w))
  connect_run-connected w e calm =
      let opening = control_channel w ReadyState.opening in
      (
        connect_run-Reach w e calm,
        rw (run-called w e) (on_open-state _ _),
        rw (run-called w e) (
            on_open-connection (on_data_channel device_udid (called w) (codes "control") opening)
              (record (new_connection w.next) { data_channel = some opening })
              (control_channel w ReadyState.open_)
              (announced-connection (called w) (new_connection w.next) opening
                (called-connection w))),
      )
