-- ===== src/Tests/FullScreen.antt =====
-- The full screen at concrete inputs.
use ms_robot.Identity.{decimal}
use ms_robot.FullScreen.Leave.Return.{IsHome, exit-enter}
use ms_robot.FullScreen.Leave.Replug.{updated, exit-replug}
use ms_robot.Base.Maps.{get}
use ms_robot.FullScreen.Events.Coherent.{IsCoherent, run-IsCoherent}
use ms_robot.Identity.{
  get_api_udid, find_wrapper_by_api_udid, find_wrappers_by_serial, build_api_udid_from_device_data,
  get_api_udid_for_card,
}
use ms_robot.Base.{none, some, true, false, refl, [], ◌∷◌, arith, codes, ◌≡◌}
use ms_robot.FullScreen.{
  Screen, in_card, in_bar, connect_button, enter_fullscreen_mode, exit_fullscreen_mode,
}
use ms_robot.FullScreen.Events.{run, Event}
use ms_robot.Tests.Data.{page, phone}
use ms_robot.Tests.Devices.{phone_data}

abbrev pub at_home : Screen
at_home = record {
  page = page;
  bottoms = (codes "p_e", in_card (codes "p@e")) ∷ (codes "t_e", in_card (codes "t@e")) ∷ [];
  rights = (codes "p_e", in_card (codes "p@e")) ∷ (codes "t_e", in_card (codes "t@e")) ∷ [];
  titles = [];
  current = none;
  active = none;
  shown = false;
  focus_udid = none;
  view = none;
  mouse = [];
}

-- The phone is on the full screen.
abbrev on_screen : Screen
on_screen = record at_home {
  bottoms = (codes "t_e", in_card (codes "t@e")) ∷ (codes "p_e", in_bar) ∷ [];
  rights = (codes "p_e", in_bar) ∷ (codes "t_e", in_card (codes "t@e")) ∷ [];
  current = some (codes "p:1@e");
  active = some (codes "p:1@e");
  shown = true;
  focus_udid = some (codes "p:1@e");
}

is_home : IsHome at_home (codes "p@e")
unfolding get
is_home = record {
  bottom = refl;
  right = refl;
  bottoms_clear = λ k. ground arith;
  rights_clear = λ k. ground arith;
}

exit-enter_example :
    (get
        (exit_fullscreen_mode
          (enter_fullscreen_mode at_home (codes "p@e") (connect_button []))).bottoms
        (codes "p_e")
      ≡ get at_home.bottoms (codes "p_e"))
    × (get
          (exit_fullscreen_mode
            (enter_fullscreen_mode at_home (codes "p@e") (connect_button []))).rights
          (codes "p_e")
        ≡ get at_home.rights (codes "p_e"))
    × ((exit_fullscreen_mode
          (enter_fullscreen_mode at_home (codes "p@e") (connect_button []))).current
        ≡ none)
unfolding get_api_udid get find_wrapper_by_api_udid get_api_udid_for_card
exit-enter_example =
    exit-enter at_home (codes "p@e") (connect_button []) phone phone refl refl refl refl refl
      is_home (codes "p_e")

at_home-IsCoherent : IsCoherent at_home
unfolding get
at_home-IsCoherent = record {
  up = refl;
  named = refl;
  one = λ j k h. ground (arith, h);
  clear = λ h k. ground arith;
}

run-IsCoherent_example : IsCoherent (
    run at_home (
      Event.full_screen_button phone (connect_button [])
      ∷ Event.connection_ends (codes "p:1@e")
      ∷ Event.escape
      ∷ []))
run-IsCoherent_example =
    run-IsCoherent at_home
      (Event.full_screen_button phone (connect_button [])
        ∷ Event.connection_ends (codes "p:1@e")
        ∷ Event.escape
        ∷ [])
      at_home-IsCoherent

exit-replug_example :
    (get (exit_fullscreen_mode (updated on_screen (codes "p") phone_data)).bottoms (codes "p_e")
      ≡ none)
    × ((exit_fullscreen_mode (updated on_screen (codes "p") phone_data)).rights ≡ on_screen.rights)
unfolding get find_wrappers_by_serial build_api_udid_from_device_data decimal
exit-replug_example =
    exit-replug on_screen (codes "p") (codes "p:1@e") (codes "p_e") phone_data phone refl refl refl
      refl refl
