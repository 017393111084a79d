-- ===== src/Stream/Kept.antt =====
-- Each handler of a device's stream keeps its invariant.
use ms_robot.Base.Maps.{get-delete, get-put}
use ms_robot.Stream.Invariant.{
  InvOf, Inv-cleanup, state-set, set_state-InvOf, connection-save, Inv-channel, Inv-wait, is_none,
  Inv-close, Inv-open, Inv-new, Inv-fewer,
}
use ms_robot.Stream.{
  World, cleanup_webrtc_connection, Connection, connection, ConnectionState, confirm_disconnect,
  info_arrived, Channel, start_device_stream, set_state, on_data_channel, on_channel_close, on_open,
  ice_servers_arrived, save, new_connection, save_channel, batch_disconnect, went_offline,
  ice_servers_failed, init_failed,
}
use ms_robot.Base.{
  Str, ◌≡◌, Option-cases, inl, inr, some, none, arith, str_eq_refl, refl, ◌==◌, true, ℕ, Bool-cases,
  str_eq, codes, ◌<◌, ◌-◌,
}
use ms_robot.Session.{get_device_connection_state}
use ms_robot.Status.{cleanup_connection, set_device_connection_state}

module _ (device_udid : Str) where
  pub cleanup-connection :
      (w : World) (conn : Connection)
      → connection device_udid w ≡ some conn
      → connection device_udid (record w { page = cleanup_connection w.page device_udid }) ≡ none
  unfolding cleanup_connection
  cleanup-connection w conn e =
      ground (arith, get-delete w.page.connections device_udid device_udid, str_eq_refl device_udid)

  cleanup-state :
      (w : World) (conn : Connection)
      → connection device_udid w ≡ some conn
      → get_device_connection_state (cleanup_connection w.page device_udid) device_udid
        ≡ ConnectionState.disconnected
  unfolding cleanup_connection get_device_connection_state set_device_connection_state
  cleanup-state w conn e = ground (
    arith,
    get-put w.page.states device_udid device_udid ConnectionState.disconnected,
    str_eq_refl device_udid,
  )

  pub cleanup-InvOf :
      (w : World)
      → InvOf device_udid w
      → InvOf device_udid (cleanup_webrtc_connection device_udid w)
  unfolding cleanup_webrtc_connection
  cleanup-InvOf w inv = elim (Option-cases (connection device_udid w)) [
    | inl e ↦ rw (cleanup_webrtc_connection, e) inv
    | inr (conn, e) ↦
        rw (cleanup_webrtc_connection, e, cleanup-connection w conn e, cleanup-state w conn e)
          (Inv-cleanup conn e inv)
  ]

  cleanup-empty :
      (w : World)
      → is_none (connection device_udid (cleanup_webrtc_connection device_udid w)) ≡ true
  unfolding cleanup_webrtc_connection
  cleanup-empty w = elim (Option-cases (connection device_udid w)) [
    | inl e ↦ ground (arith, e)
    | inr (conn, e) ↦ rw (cleanup_webrtc_connection, e, cleanup-connection w conn e) refl
  ]

  pub start-InvOf :
      (w : World) → InvOf device_udid w → InvOf device_udid (start_device_stream device_udid w)
  unfolding start_device_stream
  start-InvOf w inv = elim (Option-cases (connection device_udid w)) [
    | inl e ↦
        rw (start_device_stream, e)
          (set_state-InvOf device_udid w ConnectionState.connecting refl inv)
    | inr (conn, e) ↦ rw (start_device_stream, e) inv
  ]

  pub arrive-InvOf :
      (w : World)
      → w.waiting == 0 ≡ true
      → InvOf device_udid w
      → InvOf device_udid (info_arrived device_udid w)
  unfolding info_arrived
  arrive-InvOf w none_waits inv =
      Inv-wait w.waiting (cleanup-empty w) none_waits (cleanup-InvOf w inv)

  pub servers-InvOf :
      (w : World)
      → 0 < w.waiting
      → InvOf device_udid w
      → InvOf device_udid (ice_servers_arrived device_udid w)
  unfolding ice_servers_arrived get_device_connection_state
  servers-InvOf w some_wait inv =
      rw (connection-save device_udid w (new_connection w.next)) (Inv-new w.next some_wait inv)

  pub disconnect-InvOf :
      (w : World) → InvOf device_udid w → InvOf device_udid (confirm_disconnect device_udid w)
  unfolding confirm_disconnect
  disconnect-InvOf w inv =
      cleanup-InvOf (set_state device_udid w ConnectionState.disconnected)
        (set_state-InvOf device_udid w ConnectionState.disconnected refl inv)

  pub save_channel-some :
      (w : World) (conn : Connection) (channel : Channel)
      → connection device_udid w ≡ some conn
      → save_channel device_udid w channel
        ≡ save device_udid w (record conn { data_channel = some channel })
  unfolding save_channel
  save_channel-some w conn channel e = rw (save_channel, e) refl

  pub announce-InvOf :
      (w : World) (label : Str) (channel : Channel)
      → w.bound channel.peer ≡ true
      → InvOf device_udid w
      → InvOf device_udid (on_data_channel device_udid w label channel)
  unfolding on_data_channel get_device_connection_state
  announce-InvOf w label channel h inv = elim (Bool-cases (str_eq label (codes "control"))) [
    | inr e ↦ rw (on_data_channel, e) inv
    | inl e ↦ elim (Option-cases (connection device_udid w)) [
      | inl n ↦ absurd (ground (arith, inv.bound_owns channel.peer, n))
      | inr (conn, c) ↦
          rw
            (
              on_data_channel,
              e,
              save_channel-some w conn channel c,
              connection-save device_udid w (record conn { data_channel = some channel }),
            )
            (Inv-channel conn channel c (ground (arith, inv.bound_owns channel.peer, c)) inv)
    ]
  ]

  pub open-InvOf :
      (w : World) (channel : Channel)
      → w.listening channel.peer ≡ true
      → InvOf device_udid w
      → InvOf device_udid (on_open device_udid w channel)
  unfolding on_open set_device_connection_state
  open-InvOf w channel h inv = elim (Option-cases (connection device_udid w)) [
    | inl n ↦ absurd (ground (arith, inv.listening_carries channel.peer, n))
    | inr (conn, c) ↦
        let saved : Connection = record conn { data_channel = some channel } in
        rw
          (
            on_open,
            save_channel-some w conn channel c,
            connection-save device_udid w saved,
            state-set device_udid (save device_udid w saved).page ConnectionState.connected,
          )
          (Inv-open conn channel c h inv)
  ]

  pub close-InvOf :
      (w : World) (n : ℕ)
      → w.listening n ≡ true
      → InvOf device_udid w
      → InvOf device_udid (on_channel_close device_udid w n)
  unfolding on_channel_close set_device_connection_state
  close-InvOf w n h inv = elim (Option-cases (connection device_udid w)) [
    | inl none_there ↦ absurd (ground (arith, inv.listening_carries n, none_there))
    | inr (conn, c) ↦
        let saved : Connection = record conn { data_channel = none } in
        rw
          (
            on_channel_close,
            c,
            connection-save device_udid w saved,
            state-set device_udid (save device_udid w saved).page ConnectionState.disconnected,
          )
          (Inv-close conn n c h inv)
  ]

  pub batch-InvOf :
      (w : World) → InvOf device_udid w → InvOf device_udid (batch_disconnect device_udid w)
  unfolding batch_disconnect
  batch-InvOf w inv =
      elim (get_device_connection_state w.page device_udid)
          as (λ s.
            (e : get_device_connection_state w.page device_udid ≡ s)
            → InvOf device_udid (batch_disconnect device_udid w)) [
              | ConnectionState.disconnected ↦ λ e. rw (batch_disconnect, e) inv
              | ConnectionState.connecting ↦ λ e. rw (batch_disconnect, e) (disconnect-InvOf w inv)
              | ConnectionState.connected ↦ λ e. rw (batch_disconnect, e) (disconnect-InvOf w inv)
            ]
        refl

  pub offline-InvOf :
      (w : World) → InvOf device_udid w → InvOf device_udid (went_offline device_udid w)
  unfolding went_offline
  offline-InvOf w inv =
      let off = set_state-InvOf device_udid w ConnectionState.disconnected refl inv in
      let cleaned = cleanup-InvOf w inv in
      let dropped : InvOf device_udid (elim (connection device_udid w) as (λ o. World) [
        | none ↦ set_state device_udid w ConnectionState.disconnected
        | some conn ↦ cleanup_webrtc_connection device_udid w
      ]) =
        elim (Option-cases (connection device_udid w)) [
          | inl e ↦ rw e off
          | inr (conn, e) ↦ rw e cleaned
        ] in
      elim (get_device_connection_state w.page device_udid)
          as (λ s.
            (e : get_device_connection_state w.page device_udid ≡ s)
            → InvOf device_udid (went_offline device_udid w)) [
              | ConnectionState.disconnected ↦ λ e. rw (went_offline, e) inv
              | ConnectionState.connecting ↦ λ e. rw (went_offline, e) dropped
              | ConnectionState.connected ↦ λ e. rw (went_offline, e) dropped
            ]
        refl

  pub failed-InvOf :
      (w : World) → InvOf device_udid w → InvOf device_udid (ice_servers_failed device_udid w)
  unfolding ice_servers_failed init_failed confirm_disconnect
  failed-InvOf w inv = disconnect-InvOf (record w { waiting = w.waiting - 1 }) (Inv-fewer inv)
