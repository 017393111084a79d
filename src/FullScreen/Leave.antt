-- ===== src/FullScreen/Leave.antt =====
-- What leaving the full screen does to the panels: they come back to the card that is found under the
-- id shown, and a bottom panel whose card is not found is gone.
pub mod Return
pub mod Replug
use ms_robot.FullScreen.Bar.{get-clear_bar}
use ms_robot.Base.Maps.{get-put, Map, get}
use ms_robot.Base.{
  none, some, true, false, refl, inl, inr, [], ◌∷◌, arith, Str, ◌≡◌, Bool-cases, truthy, or_else,
  if◌then◌else◌, ap, str_eq, ◌∙◌, ◌&&◌, List, zero, suc, or_else-truthy, Option,
}
use ms_robot.FullScreen.{
  in_card, in_bar, restore, leave, exit_fullscreen_mode, send_back,
  restore_fullscreen_panels_to_card, Screen, update_fullscreen_button_state, Place, restore_to,
  Card, find_wrapper_by_api_udid, is_bar, safe_id_from_udid, clear_bar, lowered,
}

-- A panel's place after the panels of a card are restored.
pub get-restore :
    (m : Map Place) (i d k : Str)
    → get (restore m i d) k ≡ (if str_eq i k && is_bar (get m i) then some (in_card d) else get m k)
unfolding restore
get-restore m i d k = elim (Bool-cases (is_bar (get m i))) [
  | inl e ↦ ground (arith, e, get-put m i k (in_card d))
  | inr e ↦ ground (arith, e)
]

-- A panel that is not in the header stays where it is.
pub get-send_back :
    (cards : List Card) (m : Map Place) (k : Str)
    → is_bar (get m k) ≡ false
    → get (send_back cards m) k ≡ get m k
unfolding send_back get
get-send_back cards [] k h = refl
get-send_back cards ((j, in_bar) ∷ m) k h = ground (arith, h, get-send_back cards m k)
get-send_back cards ((j, in_card d) ∷ m) k h = ground (arith, h, get-send_back cards m k)

-- With no card under the id shown, the panels are not restored.
leave-unfound :
    (s : Screen) (u : Str)
    → find_wrapper_by_api_udid s.page u ≡ none
    → ((leave s (some u)).bottoms ≡ s.bottoms) × ((leave s (some u)).rights ≡ s.rights)
unfolding leave restore_fullscreen_panels_to_card update_fullscreen_button_state restore_to
leave-unfound s u h = elim (Bool-cases (truthy u)) [
  | inl t ↦ rw (t, h) (refl, refl)
  | inr t ↦ rw t (refl, refl)
]

-- With a card under the id shown, that card's panels are restored.
leave-found :
    (s : Screen) (u : Str) (w : Card)
    → find_wrapper_by_api_udid s.page u ≡ some w
    → truthy u ≡ true
    → ((leave s (some u)).bottoms
        ≡ restore s.bottoms (safe_id_from_udid (or_else w.device_id u)) (or_else w.device_id u))
      × ((leave s (some u)).rights
          ≡ restore s.rights (safe_id_from_udid (or_else w.device_id u)) (or_else w.device_id u))
unfolding leave restore_fullscreen_panels_to_card update_fullscreen_button_state restore_to
leave-found s u w h t = rw (t, h) (refl, refl)

-- If no card is found under the id shown, leaving takes every panel under the picture out of the
-- document, and leaves the panels of the header where they are.
pub exit-unfound :
    (s : Screen) (u k : Str)
    → s.current ≡ some u
    → find_wrapper_by_api_udid s.page u ≡ none
    → is_bar (get s.bottoms k) ≡ true
    → (get (exit_fullscreen_mode s).bottoms k ≡ none) × ((exit_fullscreen_mode s).rights ≡ s.rights)
unfolding exit_fullscreen_mode
exit-unfound s u k c h b = (
  ap (λ o. get (clear_bar (leave (lowered s) o).bottoms) k) c
      ∙ (ap (λ m. get (clear_bar m) k) (leave-unfound (lowered s) u h).0
          ∙ ground (arith, get-clear_bar s.bottoms k, b)),
  ap (λ o. (leave (lowered s) o).rights) c ∙ (leave-unfound (lowered s) u h).1,
)

leave-lowered : (s : Screen) (o : Option Str) → (leave (lowered s) o).current ≡ none
unfolding leave restore_fullscreen_panels_to_card update_fullscreen_button_state restore_to
leave-lowered s none = refl
leave-lowered s (some u) = ground arith

-- A device whose card is found gets its panels back; the bar under the picture is then empty.
pub exit-found :
    (s : Screen) (u d : Str) (w : Card)
    → s.current ≡ some u
    → find_wrapper_by_api_udid s.page u ≡ some w
    → truthy u ≡ true
    → w.device_id ≡ d
    → truthy d ≡ true
    → ((exit_fullscreen_mode s).bottoms ≡ clear_bar (restore s.bottoms (safe_id_from_udid d) d))
      × ((exit_fullscreen_mode s).rights ≡ restore s.rights (safe_id_from_udid d) d)
      × ((exit_fullscreen_mode s).current ≡ none)
unfolding exit_fullscreen_mode
exit-found s u d w c h tu same td =
    let named : or_else w.device_id u ≡ d =
      or_else-truthy w.device_id u (ground (arith, same, td)) ∙ same in
    let found = leave-found (lowered s) u w h tu in
    (
      ap (λ o. clear_bar (leave (lowered s) o).bottoms) c
          ∙ (ap clear_bar found.0
              ∙ ap (λ e. clear_bar (restore s.bottoms (safe_id_from_udid e) e)) named),
      ap (λ o. (leave (lowered s) o).rights) c
          ∙ (found.1 ∙ ap (λ e. restore s.rights (safe_id_from_udid e) e) named),
      leave-lowered s s.current,
    )
