-- ===== src/FullScreen/Leave/Return.antt =====
-- A visit to the full screen leaves no trace on the panels, unless the device's id changes meanwhile.
use ms_robot.Identity.{get_device_id_for_api_udid}
use ms_robot.FullScreen.Leave.{get-restore, get-put, exit-found, get-send_back}
use ms_robot.FullScreen.Bar.{IsClear, get-clear_bar, unless_bar}
use ms_robot.FullScreen.{
  create_fullscreen_controls, Screen, View, put_if, Place, get, safe_id_from_udid, panel_id, put,
  in_card, clear_bar, in_bar, send_back, has, Map, restore, get_api_udid, enter_found, Card,
  enter_fullscreen_mode, Page, update_fullscreen_button_state, find_wrapper_by_api_udid,
  find_wrapper_by_device_id, copy_view, exit_fullscreen_mode, is_bar,
}
use ms_robot.Base.{
  some, refl, Str, ◌≡◌, none, true, false, arith, str_eq_iff, str_eq_refl, truthy, ap, or_else, ◌∙◌,
  or_else-truthy, Option,
}

-- The panels of a device stand in its card, and no panel is in a bar.
pub record IsHome (s : Screen) (device_id : Str) : Type 0 where
  pub bottom : get s.bottoms (safe_id_from_udid device_id) ≡ some (in_card device_id)
  pub right : get s.rights (safe_id_from_udid device_id) ≡ some (in_card device_id)
  pub bottoms_clear : IsClear s.bottoms
  pub rights_clear : IsClear s.rights

abbrev with_view : Screen → View → Screen
with_view s v = record s { view = some v }

-- With both panels of the device in the document, they go to the bars.
controls-put :
    (s : Screen) (u i : Str)
    → panel_id s.page u ≡ i
    → has s.bottoms i ≡ true
    → has s.rights i ≡ true
    → ((create_fullscreen_controls s u).bottoms ≡ put (clear_bar s.bottoms) i in_bar)
      × ((create_fullscreen_controls s u).rights ≡ put (send_back s.page.cards s.rights) i in_bar)
      × ((create_fullscreen_controls s u).page ≡ s.page)
unfolding create_fullscreen_controls put_if
controls-put s u i e hb hr = rw (e, hb, hr) (refl, refl, refl)

has-get : (m : Map Place) (i : Str) (p : Place) → get m i ≡ some p → has m i ≡ true
has-get m i p e = rw (e, has) refl

-- A panel that went to its bar and came back.
get-returned :
    (m : Map Place) (i d k : Str)
    → get m i ≡ some (in_card d)
    → get (restore (put m i in_bar) i d) k ≡ get m k
get-returned m i d k e = ground (
  arith,
  get-restore (put m i in_bar) i d k,
  get-put m i i in_bar,
  get-put m i k in_bar,
  str_eq_iff i k,
  str_eq_refl i,
  e,
)

panel_id-found :
    (page : Page) (u d : Str) (w : Card)
    → find_wrapper_by_api_udid page u ≡ some w
    → w.device_id ≡ d
    → truthy d ≡ true
    → panel_id page u ≡ safe_id_from_udid d
unfolding panel_id get_device_id_for_api_udid
panel_id-found page u d w e same named =
    ap (λ o. safe_id_from_udid (elim o [ none ↦ u | some w ↦ or_else w.device_id u ])) e
    ∙ ap safe_id_from_udid (or_else-truthy w.device_id u (ground (arith, same, named)) ∙ same)

unless_bar-clear : (p : Option Place) → is_bar p ≡ false → unless_bar p ≡ p
unless_bar-clear none h = refl
unless_bar-clear (some in_bar) h = absurd (ground arith)
unless_bar-clear (some (in_card d)) h = refl

abbrev pub api_of : Screen → Str → Str
api_of s d = get_api_udid s.page.registry d

-- The screen after a card was found.
abbrev entered : Screen → Str → View → Card → Screen
entered s d v w = enter_found s d v (some w)

entered-put :
    (s : Screen) (d : Str) (v : View) (w_0 : Card) (i : Str)
    → panel_id s.page (api_of s d) ≡ i
    → has s.bottoms i ≡ true
    → has s.rights i ≡ true
    → ((entered s d v w_0).bottoms ≡ put (clear_bar s.bottoms) i in_bar)
      × ((entered s d v w_0).rights ≡ put (send_back s.page.cards s.rights) i in_bar)
      × ((entered s d v w_0).page ≡ s.page)
unfolding enter_found update_fullscreen_button_state
entered-put s d v w_0 i e hb hr =
    controls-put (with_view s (copy_view v (api_of s d))) (api_of s d) i e hb hr

entered-current :
    (s : Screen) (d : Str) (v : View) (w_0 : Card) → (entered s d v w_0).current ≡ some (api_of s d)
unfolding enter_found update_fullscreen_button_state
entered-current s d v w_0 = refl

returned :
    (s : Screen) (d : Str) (v : View) (w_0 w : Card)
    → truthy d ≡ true
    → truthy (api_of s d) ≡ true
    → find_wrapper_by_api_udid s.page (api_of s d) ≡ some w
    → w.device_id ≡ d
    → IsHome s d
    → (k : Str)
    → (get (exit_fullscreen_mode (entered s d v w_0)).bottoms k ≡ get s.bottoms k)
      × (get (exit_fullscreen_mode (entered s d v w_0)).rights k ≡ get s.rights k)
      × ((exit_fullscreen_mode (entered s d v w_0)).current ≡ none)
returned s d v w_0 w td tu e same home k =
    let i = safe_id_from_udid d in
    let t = entered s d v w_0 in
    let moved =
      entered-put s d v w_0 i (panel_id-found s.page (api_of s d) d w e same td)
        (has-get s.bottoms i (in_card d) home.bottom) (has-get s.rights i (in_card d) home.right) in
    let left =
      exit-found t (api_of s d) d w (entered-current s d v w_0)
        (ap (λ page. find_wrapper_by_api_udid page (api_of s d)) moved.2 ∙ e) tu same td in
    let stays = λ (j : Str).
      get-clear_bar s.bottoms j ∙ unless_bar-clear (get s.bottoms j) (home.bottoms_clear j) in
    (
      ap (λ m. get m k) left.0
          ∙ (get-clear_bar (restore t.bottoms i d) k
              ∙ (ap (λ m. unless_bar (get (restore m i d) k)) moved.0
                  ∙ (ap unless_bar
                        (get-returned (clear_bar s.bottoms) i d k (stays i ∙ home.bottom))
                      ∙ (ap unless_bar (stays k)
                          ∙ unless_bar-clear (get s.bottoms k) (home.bottoms_clear k))))),
      ap (λ m. get m k) left.1
          ∙ (ap (λ m. get (restore m i d) k) moved.1
              ∙ (get-returned (send_back s.page.cards s.rights) i d k
                    (get-send_back s.page.cards s.rights i (home.rights_clear i) ∙ home.right)
                  ∙ get-send_back s.page.cards s.rights k (home.rights_clear k))),
      left.2,
    )

-- Where no panel of any device is in a bar of the full screen and both panels of the device are there, in
-- its own card, a device that is found by its id and, under its apiUdid, by the same id, both of which
-- have a text, is shown and left again without a change to any panel, and no device is shown in the end.
pub exit-enter :
    (s : Screen) (d : Str) (v : View) (w_0 w : Card)
    → truthy d ≡ true
    → truthy (get_api_udid s.page.registry d) ≡ true
    → find_wrapper_by_device_id s.page d ≡ some w_0
    → find_wrapper_by_api_udid s.page (get_api_udid s.page.registry d) ≡ some w
    → w.device_id ≡ d
    → IsHome s d
    → (k : Str)
    → (get (exit_fullscreen_mode (enter_fullscreen_mode s d v)).bottoms k ≡ get s.bottoms k)
      × (get (exit_fullscreen_mode (enter_fullscreen_mode s d v)).rights k ≡ get s.rights k)
      × ((exit_fullscreen_mode (enter_fullscreen_mode s d v)).current ≡ none)
unfolding enter_fullscreen_mode
exit-enter s d v w_0 w td tu e_0 e same home k = rw e_0 (returned s d v w_0 w td tu e same home k)
