-- ===== src/FullScreen.antt =====
-- The full screen (assets/web/static/js/app.js): one device's picture with its two panels, which are
-- moved out of the device's card and back.
pub mod Events
pub mod Bar
pub mod Leave
use ms_robot.Identity.{
  find_wrapper_by_api_udid, get_api_udid_for_card, safe_id_from_udid, find_wrapper_by_device_id,
  get_device_id_for_api_udid, get_api_udid,
}
use ms_robot.Base.Maps.{Map, has, put, delete, get}
use ms_robot.Base.{
  false, List, Bool, Option, Str, some, none, str_eq, or_else, ◌∷◌, [], ℕ, if◌then◌else◌, true,
  truthy, not, ◌&&◌, ◌++◌, refl, inl, inr, zero, suc, arith,
}
use ms_robot.Session.{Card, Page}

pub data Place : Type 0 where
  in_card : Str → Place
  in_bar : Place

-- What a card or the full screen shows: a video with `srcObject` and `src`, an image, or the button
-- that connects the given device.
pub data View : Type 0 where
  video : Option ℕ → Str → View
  image : Str → View
  connect_button : Str → View

-- `bottoms` and `rights` hold the panels `control-panel-bottom-…` and `control-panel-…` of the document
-- by their safe id; a panel's bar is `focus-controls` or `focus-header`. `titles` tells for a card's id
-- whether its button offers to leave; `current` is `currentFullscreenDeviceUDID`, `active` is
-- `currentActiveDeviceUDID`; `mouse` lists the devices whose video gets its mouse handlers.
pub record Screen : Type 0 where
  pub page : Page
  pub bottoms : Map Place
  pub rights : Map Place
  pub titles : Map Bool
  pub current : Option Str
  pub active : Option Str
  pub shown : Bool
  pub focus_udid : Option Str
  pub view : Option View
  pub mouse : List Str

abbrev pub is_bar : Option Place → Bool
is_bar (some in_bar) = true
is_bar _ = false

-- `focusControls.innerHTML = ''`: the panels in the bar leave the document.
pub clear_bar : Map Place → Map Place
clear_bar [] = []
clear_bar ((k, in_bar) ∷ m) = delete (clear_bar m) k
clear_bar ((k, in_card d) ∷ m) = put (clear_bar m) k (in_card d)

-- The last card whose id has this safe id.
last_card : List Card → Str → Option Str
last_card [] sid = none
last_card (w ∷ ws) sid = elim (last_card ws sid) [
  | some d ↦ some d
  | none ↦
      if truthy w.device_id && str_eq (safe_id_from_udid w.device_id) sid
      then some w.device_id
      else none
]

back_to : Option Str → Place
back_to none = in_bar
back_to (some d) = in_card d

-- A panel of `focus-header` goes back to its card.
pub send_back : List Card → Map Place → Map Place
send_back cards [] = []
send_back cards ((k, in_bar) ∷ m) =
    (k, if truthy k then back_to (last_card cards k) else in_bar) ∷ send_back cards m
send_back cards ((k, in_card d) ∷ m) = (k, in_card d) ∷ send_back cards m

pub put_if : Bool → Map Place → Str → Map Place
put_if b m k = if b then put m k in_bar else m

abbrev is_video : Option View → Bool
is_video (some (video _ _)) = true
is_video _ = false

-- The safe id of a device's panels.
pub panel_id : Page → Str → Str
panel_id page device_udid = safe_id_from_udid (get_device_id_for_api_udid page device_udid)

pub create_fullscreen_controls : Screen → Str → Screen
create_fullscreen_controls s device_udid =
    let safe_id = panel_id s.page device_udid in
    let bottom = has s.bottoms safe_id in
    let right = has s.rights safe_id in
    if not bottom && not right then s else record s {
      rights = put_if right (send_back s.page.cards s.rights) safe_id;
      bottoms = put_if bottom (clear_bar s.bottoms) safe_id;
      mouse =
          if is_video s.view && has s.page.connections device_udid
          then s.mouse ++ device_udid ∷ []
          else s.mouse;
    }

-- The first card with this `data-udid`.
unfoldable pub card_by_udid : List Card → Str → Option Card
card_by_udid [] udid = none
card_by_udid (w ∷ ws) udid = if str_eq w.udid udid then some w else card_by_udid ws udid

set_title : Map Bool → Option Card → Bool → Map Bool
set_title titles none is_fullscreen = titles
set_title titles (some w) is_fullscreen = put titles w.device_id is_fullscreen

update_fullscreen_button_state : Screen → Str → Bool → Screen
unfolding card_by_udid set_title
update_fullscreen_button_state s device_udid is_fullscreen = record s {
  titles = set_title s.titles (card_by_udid s.page.cards device_udid) is_fullscreen;
}

-- The full screen's copy of what a card shows: a video's `srcObject` goes before its `src`.
copy_view : View → Str → View
copy_view (video (some stream) src) api_udid = video (some stream) []
copy_view (video none src) api_udid = video none src
copy_view (image src) api_udid = image src
copy_view (connect_button _) api_udid = connect_button api_udid

enter_found : Screen → Str → View → Option Card → Screen
enter_found s device_id shown_by none = s
enter_found s device_id shown_by (some _) =
    let api_udid = get_api_udid s.page.registry device_id in
    let controls =
      create_fullscreen_controls (record s { view = some (copy_view shown_by api_udid) })
        api_udid in
    update_fullscreen_button_state
      (record controls {
        focus_udid = some api_udid;
        shown = true;
        current = some api_udid;
        active = some api_udid;
      })
      api_udid true

-- `enterFullscreenMode`; `shown_by` is what the video wrapper of the card shows.
pub enter_fullscreen_mode : Screen → Str → View → Screen
enter_fullscreen_mode s device_id shown_by =
    enter_found s device_id shown_by (find_wrapper_by_device_id s.page device_id)

-- A panel in its bar goes to the card.
pub restore : Map Place → Str → Str → Map Place
restore m k device_id = if is_bar (get m k) then put m k (in_card device_id) else m

restore_to : Screen → Str → Option Card → Screen
restore_to s api_udid none = s
restore_to s api_udid (some w) =
    let device_id = or_else w.device_id api_udid in
    record s {
      bottoms = restore s.bottoms (safe_id_from_udid device_id) device_id;
      rights = restore s.rights (safe_id_from_udid device_id) device_id;
    }

pub restore_fullscreen_panels_to_card : Screen → Str → Screen
unfolding restore_to
restore_fullscreen_panels_to_card s api_udid =
    restore_to s api_udid (find_wrapper_by_api_udid s.page api_udid)

-- What is done for the device that was shown, if there was one.
pub leave : Screen → Option Str → Screen
leave s none = s
leave s (some previous) =
    if truthy previous
    then restore_fullscreen_panels_to_card (update_fullscreen_button_state s previous false)
        previous
    else s

abbrev pub lowered : Screen → Screen
lowered s = record s { shown = false; focus_udid = none; current = none }

pub exit_fullscreen_mode : Screen → Screen
exit_fullscreen_mode s =
    let left = leave (lowered s) s.current in
    record left { view = none; bottoms = clear_bar left.bottoms }

-- Whether a device is the one on the full screen.
unfoldable pub is_current : Option Str → Str → Bool
is_current none device_udid = false
is_current (some c) device_udid = str_eq c device_udid

-- The click of a card's full-screen button.
pub fullscreen_click : Screen → Card → View → Screen
fullscreen_click s w shown_by =
    if truthy w.device_id
    then if is_current s.current (get_api_udid_for_card s.page.registry w)
      then exit_fullscreen_mode s
      else enter_fullscreen_mode s w.device_id shown_by
    else s
