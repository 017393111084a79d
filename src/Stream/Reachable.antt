-- ===== src/Stream/Reachable.antt =====
-- The steps of a device's stream keep its invariant, and what follows for every state that they reach.
use ms_robot.Stream.Kept.{
  start-InvOf, arrive-InvOf, servers-InvOf, disconnect-InvOf, announce-InvOf, open-InvOf,
  close-InvOf, cleanup-InvOf, batch-InvOf, failed-InvOf, offline-InvOf,
}
use ms_robot.Stream.Invariant.{is_shown, InvOf, has_channel, own_channel, is_none, set_state-InvOf}
use ms_robot.Stream.Steps.{
  Step, IsIdle, Reach, next, arrive, fail_info, here, servers, announce, open_channel,
  close_channel, change_peer, change_ice, end_track, other, end_offer, fail_init, confirm, batch,
  start, fail_servers, go_offline, clean_up, new_card,
}
use ms_robot.Stream.{
  PeerState, IceState, TrackKind, World, connection, confirm_disconnect, info_failed, offer_ended,
  on_connection_state_change, on_ice_connection_state_change, on_ended, init_failed,
}
use ms_robot.Base.{Str, ◌≡◌, arith, ◌==◌, true, false, not, ◌||◌, sym, refl}
use ms_robot.Session.{get_device_connection_state, ConnectionState}

module _ (device_udid : Str) where
  Step-InvOf :
      {v w : World} → Step device_udid false v w → InvOf device_udid v → InvOf device_udid w
  unfolding info_failed offer_ended on_connection_state_change on_ice_connection_state_change
      on_ended init_failed confirm_disconnect
  Step-InvOf {v} start inv = start-InvOf device_udid v inv
  Step-InvOf {v} (arrive h calm) inv = arrive-InvOf device_udid v calm inv
  Step-InvOf {v} (fail_info h) inv = inv
  Step-InvOf {v} (servers h) inv = servers-InvOf device_udid v h inv
  Step-InvOf {v} end_offer inv = inv
  Step-InvOf {v} fail_init inv = disconnect-InvOf device_udid v inv
  Step-InvOf {v} (announce label channel h) inv = announce-InvOf device_udid v label channel h inv
  Step-InvOf {v} (open_channel channel h) inv = open-InvOf device_udid v channel h inv
  Step-InvOf {v} (close_channel n h) inv = close-InvOf device_udid v n h inv
  Step-InvOf {v} (change_peer n PeerState.fresh h) inv = inv
  Step-InvOf {v} (change_peer n PeerState.connecting h) inv = inv
  Step-InvOf {v} (change_peer n PeerState.connected h) inv = inv
  Step-InvOf {v} (change_peer n PeerState.disconnected h) inv = inv
  Step-InvOf {v} (change_peer n PeerState.failed h) inv = cleanup-InvOf device_udid v inv
  Step-InvOf {v} (change_peer n PeerState.closed h) inv = cleanup-InvOf device_udid v inv
  Step-InvOf {v} (change_ice n IceState.fresh h) inv = inv
  Step-InvOf {v} (change_ice n IceState.checking h) inv = inv
  Step-InvOf {v} (change_ice n IceState.connected h) inv = inv
  Step-InvOf {v} (change_ice n IceState.completed h) inv = inv
  Step-InvOf {v} (change_ice n IceState.disconnected h) inv = inv
  Step-InvOf {v} (change_ice n IceState.failed h) inv = cleanup-InvOf device_udid v inv
  Step-InvOf {v} (change_ice n IceState.closed h) inv = inv
  Step-InvOf {v} (end_track n TrackKind.video h) inv = cleanup-InvOf device_udid v inv
  Step-InvOf {v} (end_track n TrackKind.audio h) inv = inv
  Step-InvOf {v} confirm inv = disconnect-InvOf device_udid v inv
  Step-InvOf {v} batch inv = batch-InvOf device_udid v inv
  Step-InvOf {v} (fail_servers h) inv = failed-InvOf device_udid v inv
  Step-InvOf {v} go_offline inv = offline-InvOf device_udid v inv
  Step-InvOf {v} clean_up inv = cleanup-InvOf device_udid v inv
  Step-InvOf {v} new_card inv = set_state-InvOf device_udid v ConnectionState.disconnected refl inv
  Step-InvOf {v} (other page same) inv = rw (sym same.0, sym same.1) inv

  idle-InvOf : (w : World) → IsIdle device_udid w → InvOf device_udid w
  idle-InvOf w (no_entry, off, fetching, waiting, bound, listening) = record {
    calm = omega (arith, waiting);
    empty = ground (arith, no_entry);
    own = ground (arith, no_entry);
    shown = ground (arith, off);
    bound_owns = λ n. ground (arith, bound n);
    listening_carries = λ n. ground (arith, listening n);
  }

  Reach-InvOf :
      {v w : World} → IsIdle device_udid v → Reach device_udid false v w → InvOf device_udid w
  Reach-InvOf {v} idle here = idle-InvOf v idle
  Reach-InvOf idle (next r st) = Step-InvOf st (Reach-InvOf idle r)

  -- In every state that a device's stream reaches from an idle one, when no two runs of
  -- `initWebRTCStream` for the device overlap before their peer connections and no status message moves
  -- its state to or from another apiUdid: a device shown as connected has a connection with a data channel, an entry's data channel is of the entry's peer
  -- connection, and while a run waits for its ICE servers there is no entry.
  pub Reach-IsShown :
      {v w : World}
      → IsIdle device_udid v
      → Reach device_udid false v w
      → (not (is_shown (get_device_connection_state w.page device_udid))
            || has_channel (connection device_udid w)
          ≡ true)
        × (own_channel (connection device_udid w) ≡ true)
        × (w.waiting == 0 || is_none (connection device_udid w) ≡ true)
  Reach-IsShown idle r = let inv = Reach-InvOf idle r in (inv.shown, inv.own, inv.empty)
