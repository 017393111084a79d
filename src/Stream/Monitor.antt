-- ===== src/Stream/Monitor.antt =====
-- `startWebRtcStatusMonitor` of assets/web/static/js/app.js: it looks at the connection's statistics
-- once a second until the connection is gone.
pub mod Once
use ms_robot.Base.{
  none, some, true, false, [], ◌∷◌, Str, if◌then◌else◌, Option, ℕ, Bool, List, str_eq, ltb, codes,
  ◌&&◌, ◌+◌, ◌||◌, not, ◌++◌, ◌-◌, refl, inl, inr, zero, suc, arith,
}

-- The counters that a report of incoming video has; a missing one is 0.
pub record Counters : Type 0 where
  pub frames_received : ℕ
  pub frames_dropped : ℕ
  pub packets_lost : ℕ
  pub packets_received : ℕ
  pub bytes_received : ℕ
  pub frames_decoded : ℕ
  pub key_frames_decoded : ℕ
  pub key_frames_received : ℕ

-- An entry of `getStats`; a missing text is empty.
pub record Stat : Type 0 where
  pub stat_type : Str
  pub media_type : Str
  pub kind : Str
  pub counters : Counters

pub is_inbound_video_rtp_report : Stat → Bool
is_inbound_video_rtp_report stat =
    str_eq stat.stat_type (codes "inbound-rtp")
    && (str_eq stat.media_type (codes "video") || str_eq stat.kind (codes "video"))

-- What is written to the console.
pub data Warning : Type 0 where
  frames_dropped_by packets_lost_by : ℕ → Warning
  no_video_stats stats_failed connection_problem : Warning

-- `running`: the interval is not cleared; `has_reported` is `hasReportedVideoStatsWarning`.
pub record Monitor : Type 0 where
  pub running : Bool
  pub last_stats : Counters
  pub has_reported : Bool
  pub warnings : List Warning

-- A warning for a counter that grew by more than a limit.
warn_growth : (ℕ → Warning) → ℕ → ℕ → ℕ → List Warning
warn_growth w limit now before = if ltb (before + limit) now then w (now - before) ∷ [] else []

on_stat : Monitor → Stat → Monitor
unfolding warn_growth
on_stat m stat =
    if is_inbound_video_rtp_report stat
    then record m {
      last_stats = stat.counters;
      warnings =
          m.warnings
          ++ (warn_growth frames_dropped_by 10 stat.counters.frames_dropped
                m.last_stats.frames_dropped
              ++ warn_growth packets_lost_by 50 stat.counters.packets_lost
                  m.last_stats.packets_lost);
    }
    else m

-- The entries of a report in turn.
on_stats : Monitor → List Stat → Monitor
on_stats m [] = m
on_stats m (stat ∷ stats) = on_stats (on_stat m stat) stats

any_video : List Stat → Bool
any_video [] = false
any_video (stat ∷ stats) = is_inbound_video_rtp_report stat || any_video stats

-- The states of a connection when a report was asked for.
pub record States : Type 0 where
  pub connection_state : Str
  pub ice_connection_state : Str

abbrev shows_connected : States → Bool
shows_connected s =
    str_eq s.connection_state (codes "connected")
    || str_eq s.ice_connection_state (codes "connected")

-- A report `elapsed` milliseconds after the start; a connection with no video is reported once, after
-- five seconds.
on_report : Monitor → States → ℕ → List Stat → Monitor
unfolding on_stats any_video
on_report m states elapsed stats =
    let seen = on_stats m stats in
    if not (any_video stats) && not m.has_reported && (ltb 5000 elapsed && shows_connected states)
    then record seen { has_reported = true; warnings = seen.warnings ++ no_video_stats ∷ [] }
    else seen

has_problem : States → Bool
has_problem s =
    str_eq s.connection_state (codes "closed")
    || str_eq s.connection_state (codes "failed")
    || str_eq s.ice_connection_state (codes "disconnected")
    || str_eq s.ice_connection_state (codes "failed")

-- A round of the interval: without the connection it ends.
on_tick : Monitor → Option States → Monitor
unfolding has_problem
on_tick m none = record m { running = false }
on_tick m (some states) =
    if has_problem states then record m { warnings = m.warnings ++ connection_problem ∷ [] } else m

pub data Event : Type 0 where
  tick : Option States → Event
  report : States → ℕ → List Stat → Event
  failure : Event

-- The interval calls no more once it is cleared, while a report may still come.
pub on_event : Monitor → Event → Monitor
unfolding on_tick on_report
on_event m (tick conn) = if m.running then on_tick m conn else m
on_event m (report states elapsed stats) = on_report m states elapsed stats
on_event m failure = record m { warnings = m.warnings ++ stats_failed ∷ [] }

pub run : Monitor → List Event → Monitor
run m [] = m
run m (e ∷ es) = run (on_event m e) es

abbrev zero_counters : Counters
zero_counters = record {
  frames_received = 0;
  frames_dropped = 0;
  packets_lost = 0;
  packets_received = 0;
  bytes_received = 0;
  frames_decoded = 0;
  key_frames_decoded = 0;
  key_frames_received = 0;
}

abbrev pub start_web_rtc_status_monitor : Monitor
start_web_rtc_status_monitor = record {
  running = true;
  last_stats = zero_counters;
  has_reported = false;
  warnings = [];
}
