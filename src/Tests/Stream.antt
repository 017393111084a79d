-- ===== src/Tests/Stream.antt =====
-- The life of a stream at concrete inputs.
use ms_robot.Stream.Playback.Attempts.{start_playback, all_due, run_video-plays}
use ms_robot.Stream.Playback.{
  VideoEvent, on_video_event, run_video, pause, play_failed, waited, replay_failed,
}
use ms_robot.Stream.Candidates.Delivered.{candidates, all_addressed, is_nil, trickle_all-delivered}
use ms_robot.Tests.Data.{page}
use ms_robot.Stream.Candidates.{fresh, trickle_all, found}
use mathlib.Core.List.{Perm}
use ms_robot.Stream.Reachable.{Reach-IsShown}
use ms_robot.Stream.Overlap.{overlap-shown}
use ms_robot.Tests.Data.{open_connection}
use ms_robot.Stream.Connects.{connect_run, opened, connect_run-connected}
use ms_robot.Stream.Stuck.{start-channel_close}
use ms_robot.Stream.Offer.Ready.{send_offer-ready, is_busy}
use ms_robot.Stream.Invariant.{is_shown, has_channel, own_channel, is_none}
use ms_robot.Stream.{World, connection, on_channel_close, start_device_stream}
use ms_robot.Stream.Offer.{send_offer, Reply, established, refused, answered}
use ms_robot.Stream.Steps.{Reach, IsIdle}
use ms_robot.Session.{get_device_connection_state, ConnectionState}
use ms_robot.Base.Maps.{get}
use ms_robot.Stream.Candidates.{
  trickle, Event, on_named, on_ice_candidate, candidate, send_next, send_ice_candidate, all_in_turn,
  named, request_answered,
}
use ms_robot.Stream.Offer.Ends.{is_exhausted, send_offer-ends, send_offer-stops}
use ms_robot.Base.{
  refl, Str, codes, not, ◌*◌, List, ℕ, if◌then◌else◌, ◌≤◌, false, true, Bool, ◌≡◌, ◌<◌, some, ltb,
  none, ◌∷◌, ◌==◌, [], ◌+◌, ◌||◌, arith, ◌++◌, truthy,
}

abbrev udid : Str
udid = codes "p:1@e"

-- The phone without a connection, and nothing under way for it.
abbrev idle : World
idle = record {
  page = record page { connections = []; states = [] };
  fetching = 0;
  waiting = 0;
  offering = 0;
  next = 0;
  bound = λ n. false;
  listening = λ n. false;
}

idle-IsIdle : IsIdle udid idle
unfolding get get_device_connection_state
idle-IsIdle = (refl, refl, refl, refl, λ n. refl, λ n. refl)

-- The same with two runs that wait for their ICE servers.
abbrev two_waiting : World
two_waiting = record idle { waiting = 2 }

-- A back end that is busy twice before it names a session.
abbrev busy_twice : ℕ → Reply
busy_twice n = if ltb n 2 then refused 500 none else answered 200 true (codes "s") none

abbrev always : ℕ → Bool
always t = true

-- The user disconnects at check number 13.
abbrev until_13 : ℕ → Bool
until_13 t = ltb t 13

no_entry : connection udid idle ≡ none
unfolding get
no_entry = refl

connect_run-connected_example :
    Reach udid false idle (connect_run udid idle)
    × (get_device_connection_state (connect_run udid idle).page udid ≡ ConnectionState.connected)
    × (connection udid (connect_run udid idle) ≡ some (opened udid idle))
connect_run-connected_example = connect_run-connected udid idle no_entry refl

connected : Reach udid false idle (connect_run udid idle)
connected = (connect_run-connected udid idle no_entry refl).0

Reach-IsShown_example :
    (not (is_shown (get_device_connection_state (connect_run udid idle).page udid))
        || has_channel (connection udid (connect_run udid idle))
      ≡ true)
    × (own_channel (connection udid (connect_run udid idle)) ≡ true)
    × ((connect_run udid idle).waiting == 0 || is_none (connection udid (connect_run udid idle))
        ≡ true)
Reach-IsShown_example = Reach-IsShown udid idle-IsIdle connected

send_offer-ends_example :
    (is_exhausted (send_offer busy_twice until_13).0 ≡ false)
    × ((send_offer busy_twice until_13).1 ≤ 15)
send_offer-ends_example = send_offer-ends busy_twice until_13

send_offer-stops_example : 11 * (send_offer busy_twice until_13).1 ≤ 13 + 10
send_offer-stops_example = send_offer-stops busy_twice until_13 13 refl

busy_before : (n : ℕ) → n < 2 → is_busy (busy_twice n) ≡ true
busy_before n h = ground arith

send_offer-ready_example : send_offer busy_twice always ≡ (established (codes "s"), 3)
send_offer-ready_example =
    send_offer-ready busy_twice always 2 200 (codes "s") (omega arith) (λ t. refl) busy_before refl
      refl

-- Two candidates before the session is named, one after it, and then the rest of those kept.
abbrev events : List (Event ℕ)
events =
    candidate (some 1)
    ∷ candidate (some 2)
    ∷ named (codes "s")
    ∷ candidate (some 3)
    ∷ request_answered
    ∷ []

events_in_turn : all_in_turn fresh events ≡ true
unfolding trickle on_named on_ice_candidate send_next send_ice_candidate
events_in_turn = refl

trickle_all-delivered_example :
    Perm
      (candidates (trickle_all fresh events).sent
        ++ ((trickle_all fresh events).cached ++ (trickle_all fresh events).pending))
      (found events)
    × (all_addressed (trickle_all fresh events).sent ≡ true)
    × (not (truthy (trickle_all fresh events).session_id)
          || is_nil (trickle_all fresh events).pending
        ≡ true)
    × (truthy (trickle_all fresh events).session_id || is_nil (trickle_all fresh events).cached
        ≡ true)
trickle_all-delivered_example = trickle_all-delivered events events_in_turn

-- The phone with its connection.
abbrev streaming : World
streaming = record idle { page = page; bound = λ n. n == 0; listening = λ n. n == 0 }

entry : connection udid streaming ≡ some open_connection
unfolding get
entry = refl

start-channel_close_example :
    (get_device_connection_state (on_channel_close udid streaming 0).page udid
      ≡ ConnectionState.disconnected)
    × (start_device_stream udid (on_channel_close udid streaming 0)
        ≡ on_channel_close udid streaming 0)
start-channel_close_example = start-channel_close udid streaming open_connection 0 entry

overlap-shown_example :
    (u : World) × Reach udid true two_waiting u
    × (get_device_connection_state u.page udid ≡ ConnectionState.connected)
    × (connection udid u ≡ none)
overlap-shown_example = overlap-shown udid two_waiting refl

-- Two pauses; the first attempt fails, and is made again.
abbrev pauses : List VideoEvent
pauses = pause true ∷ play_failed ∷ waited true ∷ replay_failed ∷ pause true ∷ []

pauses_due : all_due start_playback pauses ≡ true
unfolding on_video_event
pauses_due = refl

run_video-plays_example :
    ((run_video start_playback pauses).attempts ≤ 5)
    × ((run_video start_playback pauses).plays ≤ 10)
run_video-plays_example = run_video-plays pauses refl pauses_due
