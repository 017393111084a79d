-- ===== src/Stream/Invariant.antt =====
-- What holds of a device's stream as long as its runs of `initWebRTCStream` do not overlap.
use ms_robot.Base.Maps.{get-put}
use ms_robot.Status.{set_device_connection_state}
use ms_robot.Stream.{unset, set, new_connection, no_channel, World, connection, save, set_state}
use ms_robot.Session.{ConnectionState, Connection, Channel, get_device_connection_state, Page}
use ms_robot.Base.{
  Option, ℕ, Bool, ◌≤◌, ◌≡◌, false, true, some, none, ◌==◌, ◌||◌, not, ◌<◌, arith, ==_iff, refl,
  ◌-◌, Str, str_eq_refl, ◌+◌,
}

-- The peer connection of an entry, and that of the channel in it, is number `n`.
abbrev pub owns : Option Connection → ℕ → Bool
owns none n = false
owns (some conn) n = conn.peer == n

abbrev pub channel_is : Option Channel → ℕ → Bool
channel_is none n = false
channel_is (some c) n = c.peer == n

abbrev pub carries : Option Connection → ℕ → Bool
carries none n = false
carries (some conn) n = channel_is conn.data_channel n

abbrev pub has_channel : Option Connection → Bool
has_channel none = false
has_channel (some conn) = elim conn.data_channel [ none ↦ false | some c ↦ true ]

-- An entry's channel is of its own peer connection.
abbrev pub own_channel : Option Connection → Bool
own_channel none = true
own_channel (some conn) = elim conn.data_channel [ none ↦ true | some c ↦ c.peer == conn.peer ]

abbrev pub is_none : Option Connection → Bool
is_none none = true
is_none (some conn) = false

abbrev pub is_shown : ConnectionState → Bool
is_shown ConnectionState.connected = true
is_shown _ = false

-- Over the device's entry, its state, the runs that wait, and the two kinds of handlers.
pub record Inv (o : Option Connection) (s : ConnectionState) (waiting : ℕ)
    (bound listening : ℕ → Bool) : Type 0 where
  pub calm : waiting ≤ 1
  pub empty : waiting == 0 || is_none o ≡ true
  pub own : own_channel o ≡ true
  pub shown : not (is_shown s) || has_channel o ≡ true
  pub bound_owns : (n : ℕ) → not (bound n) || owns o n ≡ true
  pub listening_carries : (n : ℕ) → not (listening n) || carries o n ≡ true

pub Inv-cleanup :
    {o : Option Connection} {s : ConnectionState} {waiting : ℕ} {bound listening : ℕ → Bool}
    (conn : Connection)
    → o ≡ some conn
    → Inv o s waiting bound listening
    → Inv none ConnectionState.disconnected waiting
        (unset bound conn.peer)
        (no_channel conn.data_channel listening)
Inv-cleanup conn e inv = record {
  calm = inv.calm;
  empty = ground arith;
  own = refl;
  shown = refl;
  bound_owns = λ n. ground (arith, inv.bound_owns n, e);
  listening_carries = λ n. ground (arith, inv.listening_carries n, e);
}

Inv-state :
    {o : Option Connection} {s : ConnectionState} {waiting : ℕ} {bound listening : ℕ → Bool}
    (t : ConnectionState)
    → is_shown t ≡ false
    → Inv o s waiting bound listening
    → Inv o t waiting bound listening
Inv-state t e inv = record {
  calm = inv.calm;
  empty = inv.empty;
  own = inv.own;
  shown = ground (arith, e);
  bound_owns = inv.bound_owns;
  listening_carries = inv.listening_carries;
}

pub Inv-new :
    {o : Option Connection} {s : ConnectionState} {waiting : ℕ} {bound listening : ℕ → Bool} (n : ℕ)
    → 0 < waiting
    → Inv o s waiting bound listening
    → Inv (some (new_connection n)) s (waiting - 1) (set bound n) listening
Inv-new n some_waiting inv = record {
  calm = omega (arith, inv.calm);
  empty = ground (arith, inv.calm);
  own = refl;
  shown = ground (arith, inv.shown, inv.empty);
  bound_owns = λ j. ground (arith, inv.bound_owns j, inv.empty, ==_iff n j);
  listening_carries = λ j. ground (arith, inv.listening_carries j, inv.empty);
}

-- A run that waits leaves the device without an entry.
pub Inv-wait :
    {o : Option Connection} {s : ConnectionState} {waiting : ℕ} {bound listening : ℕ → Bool} (n : ℕ)
    → is_none o ≡ true
    → n == 0 ≡ true
    → Inv o s waiting bound listening
    → Inv o s (n + 1) bound listening
Inv-wait n e z inv = record {
  calm = ground arith;
  empty = ground (arith, e);
  own = inv.own;
  shown = inv.shown;
  bound_owns = inv.bound_owns;
  listening_carries = inv.listening_carries;
}

-- The channel of a peer connection that has its handlers.
pub Inv-channel :
    {o : Option Connection} {s : ConnectionState} {waiting : ℕ} {bound listening : ℕ → Bool}
    (conn : Connection) (c : Channel)
    → o ≡ some conn
    → conn.peer == c.peer ≡ true
    → Inv o s waiting bound listening
    → Inv (some (record conn { data_channel = some c })) s waiting bound (set listening c.peer)
Inv-channel conn c e same inv = record {
  calm = inv.calm;
  empty = ground (arith, inv.empty, e);
  own = ground (arith, ==_iff conn.peer c.peer, ==_iff c.peer conn.peer);
  shown = ground (arith);
  bound_owns = λ j. ground (arith, inv.bound_owns j, e);
  listening_carries = λ j.
      ground (arith, inv.listening_carries j, inv.own, e, ==_iff c.peer j, ==_iff conn.peer c.peer);
}

pub Inv-open :
    {o : Option Connection} {s : ConnectionState} {waiting : ℕ} {bound listening : ℕ → Bool}
    (conn : Connection) (c : Channel)
    → o ≡ some conn
    → listening c.peer ≡ true
    → Inv o s waiting bound listening
    → Inv
        (some (record conn { data_channel = some c }))
        ConnectionState.connected
        waiting
        bound
        listening
Inv-open conn c e heard inv = record {
  calm = inv.calm;
  empty = ground (arith, inv.empty, e);
  own = ground (arith, inv.listening_carries c.peer, inv.own, e, ==_iff c.peer conn.peer);
  shown = refl;
  bound_owns = λ j. ground (arith, inv.bound_owns j, e);
  listening_carries = λ j.
      ground (arith, inv.listening_carries j, inv.listening_carries c.peer, e, ==_iff c.peer j);
}

pub Inv-close :
    {o : Option Connection} {s : ConnectionState} {waiting : ℕ} {bound listening : ℕ → Bool}
    (conn : Connection) (n : ℕ)
    → o ≡ some conn
    → listening n ≡ true
    → Inv o s waiting bound listening
    → Inv
        (some (record conn { data_channel = none }))
        ConnectionState.disconnected
        waiting
        bound
        (unset listening n)
Inv-close conn n e heard inv = record {
  calm = inv.calm;
  empty = ground (arith, inv.empty, e);
  own = refl;
  shown = refl;
  bound_owns = λ j. ground (arith, inv.bound_owns j, e);
  listening_carries =
      λ j. ground (arith, inv.listening_carries j, inv.listening_carries n, e, ==_iff n j);
}

module _ (device_udid : Str) where
  abbrev pub InvOf : World → Type 0
  InvOf w =
      Inv (connection device_udid w) (get_device_connection_state w.page device_udid) w.waiting
        w.bound w.listening

  pub state-set :
      (page : Page) (s : ConnectionState)
      → get_device_connection_state (set_device_connection_state page device_udid s) device_udid ≡ s
  unfolding get_device_connection_state set_device_connection_state
  state-set page s =
      ground (arith, get-put page.states device_udid device_udid s, str_eq_refl device_udid)

  pub connection-save :
      (w : World) (conn : Connection) → connection device_udid (save device_udid w conn) ≡ some conn
  connection-save w conn =
      ground
        (arith, get-put w.page.connections device_udid device_udid conn, str_eq_refl device_udid)

  pub set_state-InvOf :
      (w : World) (s : ConnectionState)
      → is_shown s ≡ false
      → InvOf w
      → InvOf (set_state device_udid w s)
  unfolding set_device_connection_state
  set_state-InvOf w s e inv = rw (state-set w.page s) (Inv-state s e inv)

-- One run less waits.
pub Inv-fewer :
    {o : Option Connection} {s : ConnectionState} {waiting : ℕ} {bound listening : ℕ → Bool}
    → Inv o s waiting bound listening
    → Inv o s (waiting - 1) bound listening
Inv-fewer inv = record {
  calm = omega (arith, inv.calm);
  empty = ground (arith, inv.calm, inv.empty);
  own = inv.own;
  shown = inv.shown;
  bound_owns = inv.bound_owns;
  listening_carries = inv.listening_carries;
}
