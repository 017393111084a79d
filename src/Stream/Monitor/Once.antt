-- ===== src/Stream/Monitor/Once.antt =====
-- How often the monitor warns.
use ms_robot.Base.{
  none, some, true, false, refl, [], ◌∷◌, arith, ℕ, Bool, ◌≡◌, List, ◌++◌, ◌+◌, ◌≤◌, if◌then◌else◌,
  ◌∙◌,
}
use ms_robot.Stream.Monitor.{
  on_stat, on_stats, on_tick, on_report, warn_growth, has_problem, run, on_event, Monitor, Warning,
  Stat, Event, tick, frames_dropped_by, connection_problem, stats_failed, report, no_video_stats,
  failure, packets_lost_by, start_web_rtc_status_monitor,
}

-- The warnings of a kind.
abbrev pub is_no_video : Warning → Bool
is_no_video no_video_stats = true
is_no_video _ = false

abbrev is_problem : Warning → Bool
is_problem connection_problem = true
is_problem _ = false

abbrev pub count : (Warning → Bool) → List Warning → ℕ
count p [] = 0
count p (w ∷ ws) = (if p w then 1 else 0) + count p ws

count-append : (p : Warning → Bool) (v w : List Warning) → count p (v ++ w) ≡ count p v + count p w
count-append p [] w = omega arith
count-append p (x ∷ v) w = omega (arith, count-append p v w)

growth-count :
    (n l k l_2 : ℕ) (m j : ℕ)
    → (count is_no_video
          (warn_growth frames_dropped_by n l k ++ warn_growth packets_lost_by l_2 m j)
        ≡ 0)
      × (count is_problem
            (warn_growth frames_dropped_by n l k ++ warn_growth packets_lost_by l_2 m j)
          ≡ 0)
unfolding warn_growth
growth-count n l k l_2 m j = (ground arith, ground arith)

-- What a report of counters leaves alone.
abbrev Keeps : Monitor → Monitor → Type 0
Keeps m n =
    (count is_no_video n.warnings ≡ count is_no_video m.warnings)
    × (count is_problem n.warnings ≡ count is_problem m.warnings)
    × (n.has_reported ≡ m.has_reported)
    × (n.running ≡ m.running)

on_stat-Keeps : (m : Monitor) (s : Stat) → Keeps m (on_stat m s)
unfolding on_stat
on_stat-Keeps m s =
    let d = s.counters.frames_dropped in
    let e = m.last_stats.frames_dropped in
    let p = s.counters.packets_lost in
    let q = m.last_stats.packets_lost in
    let added = warn_growth frames_dropped_by 10 d e ++ warn_growth packets_lost_by 50 p q in
    let none_ = growth-count 10 d e 50 p q in
    (
      ground (arith, count-append is_no_video m.warnings added, none_.0),
      ground (arith, count-append is_problem m.warnings added, none_.1),
      ground arith,
      ground arith,
    )

on_stats-Keeps : (m : Monitor) (ss : List Stat) → Keeps m (on_stats m ss)
unfolding on_stats
on_stats-Keeps m [] = (refl, refl, refl, refl)
on_stats-Keeps m (s ∷ ss) =
    let a = on_stat-Keeps m s in
    let b = on_stats-Keeps (on_stat m s) ss in (b.0 ∙ a.0, b.1 ∙ a.1, b.2 ∙ a.2, b.3 ∙ a.3)

-- The warning that no video is received was given once if it was noted, and else never.
abbrev pub IsNoted : Monitor → Type 0
IsNoted m = count is_no_video m.warnings ≡ (if m.has_reported then 1 else 0)

event-IsNoted : (m : Monitor) (e : Event) → IsNoted m → IsNoted (on_event m e)
unfolding on_event on_tick on_report has_problem
event-IsNoted m (tick none) h = ground (arith, h)
event-IsNoted m (tick (some s)) h =
    ground (arith, h, count-append is_no_video m.warnings (connection_problem ∷ []))
event-IsNoted m failure h =
    ground (arith, h, count-append is_no_video m.warnings (stats_failed ∷ []))
event-IsNoted m (report s t ss) h =
    let k = on_stats-Keeps m ss in
    ground
      (arith, h, k.0, k.2, count-append is_no_video (on_stats m ss).warnings (no_video_stats ∷ []))

run-IsNoted : (m : Monitor) (es : List Event) → IsNoted m → IsNoted (run m es)
unfolding run
run-IsNoted m [] h = h
run-IsNoted m (e ∷ es) h = run-IsNoted (on_event m e) es (event-IsNoted m e h)

-- Whatever reports come, the monitor of a connection warns at most once that no video is received.
run-once : (es : List Event) → count is_no_video (run start_web_rtc_status_monitor es).warnings ≤ 1
run-once es = ground (arith, run-IsNoted start_web_rtc_status_monitor es refl)

stopped-event :
    (m : Monitor) (e : Event)
    → m.running ≡ false
    → (count is_problem (on_event m e).warnings ≡ count is_problem m.warnings)
      × ((on_event m e).running ≡ false)
unfolding on_event on_tick on_report
stopped-event m (tick o) h = (ground (arith, h), ground (arith, h))
stopped-event m failure h =
    (ground (arith, count-append is_problem m.warnings (stats_failed ∷ [])), h)
stopped-event m (report s t ss) h =
    let k = on_stats-Keeps m ss in
    (
      ground (arith, k.1, count-append is_problem (on_stats m ss).warnings (no_video_stats ∷ [])),
      ground (arith, k.3, h),
    )

-- Once the connection was gone at a round, later rounds, reports and failures report no problem of the
-- connection any more, and the interval stays cleared.
run-stopped :
    (m : Monitor) (es : List Event)
    → m.running ≡ false
    → (count is_problem (run m es).warnings ≡ count is_problem m.warnings)
      × ((run m es).running ≡ false)
unfolding run
run-stopped m [] h = (refl, h)
run-stopped m (e ∷ es) h =
    let k = stopped-event m e h in let n = run-stopped (on_event m e) es k.1 in (n.0 ∙ k.0, n.1)
