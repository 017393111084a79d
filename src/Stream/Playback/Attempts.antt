-- ===== src/Stream/Playback/Attempts.antt =====
-- The video is not restarted for ever.
use ms_robot.Base.{List, Bool, true, ◌∷◌, not, false, ◌&&◌, [], ltb, ◌≡◌, ◌≤◌, arith, ◌+◌, ◌*◌}
use ms_robot.Stream.Playback.{
  VideoEvent, played, replayed, playing, run_video, Playback, on_video_event, waited, play_failed,
  replay_failed, pause,
}

-- An event by which the video plays again.
abbrev pub is_success : VideoEvent → Bool
is_success played = true
is_success replayed = true
is_success playing = true
is_success _ = false

abbrev pub no_success : List VideoEvent → Bool
no_success [] = true
no_success (e ∷ es) = not (is_success e) && no_success es

-- An answer comes only for a call that is open, and the end of a wait only for a wait.
abbrev pub is_due : Playback → VideoEvent → Bool
is_due p played = ltb 0 p.promised
is_due p play_failed = ltb 0 p.promised
is_due p (waited paused_) = ltb 0 p.delayed
is_due p replayed = ltb 0 p.retried
is_due p replay_failed = ltb 0 p.retried
is_due p _ = true

abbrev pub all_due : Playback → List VideoEvent → Bool
all_due p [] = true
all_due p (e ∷ es) = is_due p e && all_due (on_video_event p e) es

abbrev pub start_playback : Playback
start_playback = record { attempts = 0; plays = 0; promised = 0; delayed = 0; retried = 0 }

record IsBounded (p : Playback) : Type 0 where
  few : p.attempts ≤ 5
  paid : p.plays + p.promised + p.delayed ≤ 2 * p.attempts

event-IsBounded :
    (p : Playback) (e : VideoEvent)
    → is_success e ≡ false
    → is_due p e ≡ true
    → IsBounded p
    → IsBounded (on_video_event p e)
unfolding on_video_event
event-IsBounded p (pause paused_) no_luck due ok = record {
  few = ground (arith, ok.few);
  paid = ground (arith, ok.paid);
}
event-IsBounded p played no_luck due ok = absurd (ground arith)
event-IsBounded p play_failed no_luck due ok = record {
  few = ground (arith, ok.few);
  paid = ground (arith, ok.paid);
}
event-IsBounded p (waited paused_) no_luck due ok = record {
  few = ground (arith, ok.few);
  paid = ground (arith, ok.paid);
}
event-IsBounded p replayed no_luck due ok = absurd (ground arith)
event-IsBounded p replay_failed no_luck due ok = record { few = ok.few; paid = ok.paid }
event-IsBounded p playing no_luck due ok = absurd (ground arith)

run-IsBounded :
    (p : Playback) (es : List VideoEvent)
    → no_success es ≡ true
    → all_due p es ≡ true
    → IsBounded p
    → IsBounded (run_video p es)
unfolding run_video
run-IsBounded p [] no_luck due ok = ok
run-IsBounded p (e ∷ es) no_luck due ok =
    run-IsBounded (on_video_event p e) es (ground (arith, no_luck)) (ground (arith, due))
      (event-IsBounded p e (ground (arith, no_luck)) (ground (arith, due)) ok)

-- As long as the video does not play and promises and waits end only once each, the handler of `pause`
-- makes at most five attempts, with at most ten calls of `play` in all, those after a wait included,
-- however often the video is paused. Calls of `play` from elsewhere are not counted.
pub run_video-plays :
    (es : List VideoEvent)
    → no_success es ≡ true
    → all_due start_playback es ≡ true
    → ((run_video start_playback es).attempts ≤ 5) × ((run_video start_playback es).plays ≤ 10)
run_video-plays es no_luck due =
    let start_ : IsBounded start_playback = record { few = omega arith; paid = omega arith } in
    let r = run-IsBounded start_playback es no_luck due start_ in
    (r.few, omega (arith, r.few, r.paid))
