-- ===== src/FullScreen/Events.antt =====
-- The events of the full screen (assets/web/static/js/app.js): clicks, the Escape key, and the updates
-- while a connection comes and goes.
pub mod Coherent
use ms_robot.Base.{
  Option, Bool, List, if◌then◌else◌, ◌∷◌, some, ℕ, [], ◌++◌, none, truthy, true, false, refl, inl,
  inr, zero, suc, arith,
}
use ms_robot.Session.{Card}
use ms_robot.FullScreen.{
  Screen, exit_fullscreen_mode, View, fullscreen_click, Str, is_current, create_fullscreen_controls,
  image, connect_button, copy_view, Page, video, has,
}

-- What a click inside `focus-mode` meets.
pub data Target : Type 0 where
  exit_button confirm_dialog info_panel video_area controls_area header_area elsewhere : Target

activate : Screen → Option Str → Screen
activate s none = s
activate s (some c) = if truthy c then record s { active = some c } else s

-- A click on the video makes the shown device the one that gets the keys; nothing but the exit button
-- leaves.
on_focus_click : Screen → Target → Screen
on_focus_click s exit_button = exit_fullscreen_mode s
on_focus_click s video_area = activate s s.current
on_focus_click s _ = s

exit_if : Screen → Option Str → Screen
exit_if s none = s
exit_if s (some c) = if truthy c then exit_fullscreen_mode s else s

-- `keydown` of the document.
on_escape : Screen → Screen
on_escape s = elim s.current [ none ↦ s | some c ↦ if truthy c then exit_fullscreen_mode s else s ]

-- The video copy of `updateFullscreenVideo`.
update_fullscreen_video : Screen → Str → Option ℕ → Str → Screen
update_fullscreen_video s device_udid src_object src =
    if is_current s.current device_udid
    then create_fullscreen_controls
        (record s {
          view = some (copy_view (video src_object src) device_udid);
          mouse =
              if has s.page.connections device_udid then s.mouse ++ device_udid ∷ [] else s.mouse;
        })
        device_udid
    else s

update_fullscreen_image : Screen → Str → Str → Screen
update_fullscreen_image s device_udid src =
    if is_current s.current device_udid then record s { view = some (image src) } else s

update_fullscreen_disconnected_ui : Screen → Str → Screen
update_fullscreen_disconnected_ui s device_udid =
    if is_current s.current device_udid
    then create_fullscreen_controls (record s { view = some (connect_button device_udid) })
        device_udid
    else s

-- A click in the picture of a card, which a button takes for itself.
on_video_click : Screen → Str → Bool → Screen
on_video_click s device_udid on_button =
    if on_button then s else record s { active = some device_udid }

-- An event; `page_changed` stands for whatever the rest of the page does to its own state.
pub data Event : Type 0 where
  full_screen_button : Card → View → Event
  focus_click : Target → Event
  escape : Event
  video_arrives : Str → Option ℕ → Str → Event
  image_arrives : Str → Str → Event
  connection_ends : Str → Event
  video_click : Str → Bool → Event
  page_changed : Page → Event

on_event : Screen → Event → Screen
on_event s (full_screen_button w shown_by) = fullscreen_click s w shown_by
on_event s (focus_click target) = on_focus_click s target
on_event s escape = on_escape s
on_event s (video_arrives d src_object src) = update_fullscreen_video s d src_object src
on_event s (image_arrives d src) = update_fullscreen_image s d src
on_event s (connection_ends d) = update_fullscreen_disconnected_ui s d
on_event s (video_click d on_button) = on_video_click s d on_button
on_event s (page_changed page) = record s { page = page }

pub run : Screen → List Event → Screen
run s [] = s
run s (e ∷ es) = run (on_event s e) es
