-- ===== src/FullScreen/Events/Coherent.antt =====
-- What holds of the full screen after any events.
use ms_robot.FullScreen.Bar.{clear_bar-IsClear, HoldsOne, IsClear, put_if-HoldsOne}
use ms_robot.FullScreen.Events.{
  run, on_escape, update_fullscreen_video, update_fullscreen_disconnected_ui, on_event,
  on_focus_click, update_fullscreen_image, on_video_click, Target, exit_button, Event,
  full_screen_button, video_area, confirm_dialog, focus_click, info_panel, video_arrives,
  controls_area, image_arrives, header_area, connection_ends, video_click, page_changed, escape,
  exit_if, activate, elsewhere,
}
use ms_robot.FullScreen.{
  exit_fullscreen_mode, Screen, create_fullscreen_controls, enter_fullscreen_mode, is_current,
  update_fullscreen_button_state, leave, restore_fullscreen_panels_to_card, View, restore_to,
  find_wrapper_by_device_id, copy_view, get_api_udid, has, panel_id, fullscreen_click, clear_bar,
  get_api_udid_for_card, enter_found, Card, lowered,
}
use ms_robot.Base.{
  none, some, true, false, refl, inl, inr, [], ◌∷◌, arith, Option, Str, ◌≡◌, Bool, sym, Bool-cases,
  ◌∙◌, not, ◌&&◌, truthy, ℕ, List,
}

abbrev pub is_some : Option Str → Bool
is_some none = false
is_some (some d) = true

-- The overlay is up exactly while a device is shown, and bears its id; under the picture stands at most
-- one panel, and none while no device is shown.
pub record IsCoherent (s : Screen) : Type 0 where
  pub up : s.shown ≡ is_some s.current
  pub named : s.focus_udid ≡ s.current
  pub one : HoldsOne s.bottoms
  pub clear : is_some s.current ≡ false → IsClear s.bottoms

controls-HoldsOne :
    (s : Screen) (d : Str) → HoldsOne s.bottoms → HoldsOne (create_fullscreen_controls s d).bottoms
unfolding create_fullscreen_controls
controls-HoldsOne s d one =
    elim (Bool-cases
      (not (has s.bottoms (panel_id s.page d)) && not (has s.rights (panel_id s.page d)))) [
        | inl e ↦ rw e one
        | inr e ↦ rw e (
            put_if-HoldsOne (has s.bottoms (panel_id s.page d)) (clear_bar s.bottoms)
              (panel_id s.page d) (clear_bar-IsClear s.bottoms))
      ]

-- The panels are all that `createFullscreenControls` changes, besides the handlers.
controls-current : (s : Screen) (d : Str) → (create_fullscreen_controls s d).current ≡ s.current
unfolding create_fullscreen_controls
controls-current s d = ground arith

controls-shown : (s : Screen) (d : Str) → (create_fullscreen_controls s d).shown ≡ s.shown
unfolding create_fullscreen_controls
controls-shown s d = ground arith

controls-focus_udid :
    (s : Screen) (d : Str) → (create_fullscreen_controls s d).focus_udid ≡ s.focus_udid
unfolding create_fullscreen_controls
controls-focus_udid s d = ground arith

-- For a screen that shows a device and keeps its current one.
controls-IsCoherent :
    (s : Screen) (d : Str)
    → is_some s.current ≡ true
    → IsCoherent s
    → IsCoherent (create_fullscreen_controls s d)
controls-IsCoherent s d some_ ok = record {
  up = rw (controls-shown s d, controls-current s d) ok.up;
  named = rw (controls-focus_udid s d, controls-current s d) ok.named;
  one = controls-HoldsOne s d ok.one;
  clear = λ e. absurd (ground (arith, e, some_, controls-current s d));
}

enter-IsCoherent :
    (s : Screen) (d : Str) (v : View) (o : Option Card)
    → IsCoherent s
    → IsCoherent (enter_found s d v o)
unfolding enter_found update_fullscreen_button_state
enter-IsCoherent s d v none ok = ok
enter-IsCoherent s d v (some w) ok = record {
  up = refl;
  named = refl;
  one =
      controls-HoldsOne (record s { view = some (copy_view v (get_api_udid s.page.registry d)) })
        (get_api_udid s.page.registry d) ok.one;
  clear = λ h. absurd (ground (arith, h));
}

mode-IsCoherent :
    (s : Screen) (d : Str) (v : View) → IsCoherent s → IsCoherent (enter_fullscreen_mode s d v)
unfolding enter_fullscreen_mode
mode-IsCoherent s d v ok = enter-IsCoherent s d v (find_wrapper_by_device_id s.page d) ok

-- What is done for the last device leaves the full screen itself alone.
leave-current : (s : Screen) (o : Option Str) → (leave s o).current ≡ s.current
unfolding leave restore_fullscreen_panels_to_card restore_to update_fullscreen_button_state
leave-current s none = refl
leave-current s (some d) = ground arith

leave-shown : (s : Screen) (o : Option Str) → (leave s o).shown ≡ s.shown
unfolding leave restore_fullscreen_panels_to_card restore_to update_fullscreen_button_state
leave-shown s none = refl
leave-shown s (some d) = ground arith

leave-focus_udid : (s : Screen) (o : Option Str) → (leave s o).focus_udid ≡ s.focus_udid
unfolding leave restore_fullscreen_panels_to_card restore_to update_fullscreen_button_state
leave-focus_udid s none = refl
leave-focus_udid s (some d) = ground arith

exit-IsCoherent : (s : Screen) → IsCoherent (exit_fullscreen_mode s)
unfolding exit_fullscreen_mode
exit-IsCoherent s = record {
  up = rw (leave-shown (lowered s) s.current, leave-current (lowered s) s.current) refl;
  named = rw (leave-focus_udid (lowered s) s.current, leave-current (lowered s) s.current) refl;
  one = λ j k hj.
      absurd (ground (arith, hj, clear_bar-IsClear (leave (lowered s) s.current).bottoms j));
  clear = λ e. clear_bar-IsClear (leave (lowered s) s.current).bottoms;
}

-- A change of what the invariant does not read.
abbrev pub Same : Screen → Screen → Type 0
Same s t =
    (s.shown ≡ t.shown)
    × (s.current ≡ t.current)
    × (s.focus_udid ≡ t.focus_udid)
    × (s.bottoms ≡ t.bottoms)

-- What the invariant does not read may change.
kept : {s : Screen} (t : Screen) → Same s t → IsCoherent s → IsCoherent t
kept t same ok = record {
  up = ground (arith, ok.up, same.0, same.1);
  named = sym same.2 ∙ (ok.named ∙ same.1);
  one = rw (sym same.3) ok.one;
  clear = rw (sym same.3, sym same.1) ok.clear;
}

is_current-is_some : (o : Option Str) (d : Str) → is_current o d ≡ true → is_some o ≡ true
unfolding is_current
is_current-is_some none d h = absurd (ground arith)
is_current-is_some (some c) d h = refl

video-IsCoherent :
    (s : Screen) (d : Str) (o : Option ℕ) (src : Str)
    → IsCoherent s
    → IsCoherent (update_fullscreen_video s d o src)
unfolding update_fullscreen_video
video-IsCoherent s d o src ok = elim (Bool-cases (is_current s.current d)) [
  | inr e ↦ rw e ok
  | inl e ↦ rw e (
      controls-IsCoherent _ d (is_current-is_some s.current d e)
        (kept _ (refl, refl, refl, refl) ok))
]

disconnected-IsCoherent :
    (s : Screen) (d : Str) → IsCoherent s → IsCoherent (update_fullscreen_disconnected_ui s d)
unfolding update_fullscreen_disconnected_ui
disconnected-IsCoherent s d ok = elim (Bool-cases (is_current s.current d)) [
  | inr e ↦ rw e ok
  | inl e ↦ rw e (
      controls-IsCoherent _ d (is_current-is_some s.current d e)
        (kept _ (refl, refl, refl, refl) ok))
]

image-IsCoherent :
    (s : Screen) (d src : Str) → IsCoherent s → IsCoherent (update_fullscreen_image s d src)
unfolding update_fullscreen_image
image-IsCoherent s d src ok = elim (Bool-cases (is_current s.current d)) [
  | inr e ↦ rw e ok
  | inl e ↦ rw e (kept _ (refl, refl, refl, refl) ok)
]

escape-IsCoherent : (s : Screen) (o : Option Str) → IsCoherent s → IsCoherent (exit_if s o)
unfolding exit_if
escape-IsCoherent s none ok = ok
escape-IsCoherent s (some c) ok = elim (Bool-cases (truthy c)) [
  | inl t ↦ rw t (exit-IsCoherent s)
  | inr t ↦ rw t ok
]

activate-IsCoherent : (s : Screen) (o : Option Str) → IsCoherent s → IsCoherent (activate s o)
unfolding activate
activate-IsCoherent s none ok = ok
activate-IsCoherent s (some c) ok = elim (Bool-cases (truthy c)) [
  | inl t ↦ rw t (kept _ (refl, refl, refl, refl) ok)
  | inr t ↦ rw t ok
]

click-IsCoherent : (s : Screen) (t : Target) → IsCoherent s → IsCoherent (on_focus_click s t)
unfolding on_focus_click
click-IsCoherent s exit_button ok = exit-IsCoherent s
click-IsCoherent s video_area ok = activate-IsCoherent s s.current ok
click-IsCoherent s confirm_dialog ok = ok
click-IsCoherent s info_panel ok = ok
click-IsCoherent s controls_area ok = ok
click-IsCoherent s header_area ok = ok
click-IsCoherent s elsewhere ok = ok

video_click-IsCoherent :
    (s : Screen) (d : Str) (b : Bool) → IsCoherent s → IsCoherent (on_video_click s d b)
unfolding on_video_click
video_click-IsCoherent s d true ok = ok
video_click-IsCoherent s d false ok = kept _ (refl, refl, refl, refl) ok

event-IsCoherent : (s : Screen) (e : Event) → IsCoherent s → IsCoherent (on_event s e)
unfolding on_event fullscreen_click on_escape exit_if
event-IsCoherent s (full_screen_button w v) ok = elim (Bool-cases (truthy w.device_id)) [
  | inl e ↦
      rw e (elim (Bool-cases (is_current s.current (get_api_udid_for_card s.page.registry w))) [
        | inl c ↦ rw c (exit-IsCoherent s)
        | inr c ↦ rw c (mode-IsCoherent s w.device_id v ok)
      ])
  | inr e ↦ rw e ok
]
event-IsCoherent s (focus_click t) ok = click-IsCoherent s t ok
event-IsCoherent s escape ok = escape-IsCoherent s s.current ok
event-IsCoherent s (video_arrives d o src) ok = video-IsCoherent s d o src ok
event-IsCoherent s (image_arrives d src) ok = image-IsCoherent s d src ok
event-IsCoherent s (connection_ends d) ok = disconnected-IsCoherent s d ok
event-IsCoherent s (video_click d b) ok = video_click-IsCoherent s d b ok
event-IsCoherent s (page_changed p) ok = kept _ (refl, refl, refl, refl) ok

-- Whatever happens on the page, the overlay is up exactly while a device is shown, it bears that device's
-- id, and at most one panel stands under the picture, none while no device is shown.
pub run-IsCoherent : (s : Screen) (es : List Event) → IsCoherent s → IsCoherent (run s es)
unfolding run
run-IsCoherent s [] ok = ok
run-IsCoherent s (e ∷ es) ok = run-IsCoherent (on_event s e) es (event-IsCoherent s e ok)
