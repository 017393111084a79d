-- ===== src/Stream/Playback.antt =====
-- How the video of a stream is kept playing (assets/web/static/js/app.js): the handlers of `pause` and
-- `playing` in `initWebRTCStream`.
pub mod Attempts
use ms_robot.Base.{if◌then◌else◌, Bool, ℕ, List, ◌∷◌, [], ◌&&◌, ltb, ◌+◌, ◌-◌}

abbrev pub max_pause_recovery_attempts : ℕ
max_pause_recovery_attempts = 5

-- `pauseRecoveryAttempts`, how often `play` was called, and the calls whose promise is open: those of
-- the handler of `pause`, and those made again after 100 ms.
pub record Playback : Type 0 where
  pub attempts : ℕ
  pub plays : ℕ
  pub promised : ℕ
  pub delayed : ℕ
  pub retried : ℕ

-- `paused_`: the video is paused, its source is set and the page is visible; the answer of a promise;
-- the end of the 100 ms, with the same test; `playing`.
pub data VideoEvent : Type 0 where
  pause : Bool → VideoEvent
  played play_failed : VideoEvent
  waited : Bool → VideoEvent
  replayed replay_failed : VideoEvent
  playing : VideoEvent

unfoldable pub on_video_event : Playback → VideoEvent → Playback
on_video_event p (pause paused_) =
    if paused_ && ltb p.attempts max_pause_recovery_attempts
    then record p { attempts = p.attempts + 1; plays = p.plays + 1; promised = p.promised + 1 }
    else p
on_video_event p played = record p { attempts = 0; promised = p.promised - 1 }
on_video_event p play_failed =
    if ltb p.attempts max_pause_recovery_attempts
    then record p { promised = p.promised - 1; delayed = p.delayed + 1 }
    else record p { promised = p.promised - 1 }
on_video_event p (waited paused_) =
    if paused_
    then record p { delayed = p.delayed - 1; plays = p.plays + 1; retried = p.retried + 1 }
    else record p { delayed = p.delayed - 1 }
on_video_event p replayed = record p { attempts = 0; retried = p.retried - 1 }
on_video_event p replay_failed = record p { retried = p.retried - 1 }
on_video_event p playing = record p { attempts = 0 }

unfoldable pub run_video : Playback → List VideoEvent → Playback
run_video p [] = p
run_video p (e ∷ es) = run_video (on_video_event p e) es
