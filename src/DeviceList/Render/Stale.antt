-- ===== src/DeviceList/Render/Stale.antt =====
-- The registry keeps the devices that are gone.
use ms_robot.Base.Maps.{get-delete, get}
use ms_robot.DeviceList.Render.Gone.{all_named, cleanup_if-keeps}
use ms_robot.DeviceList.Render.Listed.{all_ided}
use ms_robot.DeviceList.Render.Drawn.{
  render_devices_list-has_card, render_devices_list-registry, view_cards,
}
use ms_robot.DeviceList.Render.{
  Card, Device, has_card, includes, get_device_id, render_devices_list, filter_truthy, card_id,
  cleanup_if, ViewMode, all_devices,
}
use ms_robot.DeviceList.Render.Removal.{
  remove_device_card, remove_all_gone, find_removed, remove_first, load_devices, remove_gone,
  find_id, has_udid,
}
use ms_robot.Session.{Page}
use ms_robot.Base.{
  refl, none, some, List, Str, Option-cases, ◌∷◌, inl, inr, ◌≡◌, Option, if◌then◌else◌, Bool-cases,
  [], false, sym, true, Bool, str_eq, arith, map, ap, str_eq_iff, ◌∙◌,
}

-- No card of the id is shown, and its registry entry is that of another page.
abbrev IsStale : Page → Page → Str → Type 0
IsStale before page id =
    (has_card page.cards id ≡ false) × (get page.registry id ≡ get before.registry id)

find_id-ne :
    (ws : List Card) (k id : Str) (w : Card)
    → has_card ws id ≡ false
    → has_card ws w.device_id ≡ true
    → str_eq w.device_id id ≡ false
find_id-ne [] k id w h e = absurd (ground arith)
find_id-ne (v ∷ ws) k id w h e = ground (
  arith,
  find_id-ne ws k id w,
  str_eq_iff v.device_id w.device_id,
  str_eq_iff w.device_id id,
  str_eq_iff v.device_id id,
)

-- A card that is found is one of the cards.
abbrev is_of : List Card → Option Card → Bool
is_of ws none = true
is_of ws (some w) = has_card ws w.device_id

find_id-is_of : (ws : List Card) (k : Str) → is_of ws (find_id ws k) ≡ true
find_id-is_of [] k = refl
find_id-is_of (v ∷ ws) k = ground (arith, find_id-is_of ws k, str_eq_iff v.device_id v.device_id)

has_udid-is_of : (ws : List Card) (k : Str) → is_of ws (has_udid ws k) ≡ true
has_udid-is_of [] k = refl
has_udid-is_of (v ∷ ws) k = ground (arith, has_udid-is_of ws k, str_eq_iff v.device_id v.device_id)

find_removed-is_of : (ws : List Card) (k : Str) → is_of ws (find_removed ws k) ≡ true
unfolding find_removed
find_removed-is_of ws k = ground (arith, find_id-is_of ws k, has_udid-is_of ws k)

remove_first-absent :
    (v : Card) (ws : List Card) (id : Str)
    → has_card ws id ≡ false
    → has_card (remove_first v ws) id ≡ false
unfolding remove_first
remove_first-absent v [] id h = refl
remove_first-absent v (w ∷ ws) id h = ground (arith, remove_first-absent v ws id)

remove-IsStale :
    (before page : Page) (k id : Str)
    → IsStale before page id
    → IsStale before (remove_device_card page k) id
unfolding remove_device_card
remove-IsStale before page k id (h, e) = elim (Option-cases (find_removed page.cards k)) [
  | inl n ↦ rw (remove_device_card, n) (h, e)
  | inr (w, f) ↦
      rw (remove_device_card, f)
        (
          remove_first-absent w page.cards id h,
          rw
              (
                get-delete page.registry w.device_id id,
                find_id-ne page.cards k id w h
                    (rw (sym (ap (is_of page.cards) f)) (find_removed-is_of page.cards k)),
              )
              e,
        )
]

gone-IsStale :
    (before page : Page) (k id : Str)
    → IsStale before page id
    → IsStale before (remove_gone page k) id
unfolding remove_gone
gone-IsStale before page k id stale = elim (Option-cases (get page.registry k)) [
  | inl n ↦ rw (remove_gone, n) (remove-IsStale before page k id stale)
  | inr (api_udid, e) ↦
      let kept = cleanup_if-keeps page api_udid in
      rw (remove_gone, e)
        (remove-IsStale before (cleanup_if page api_udid) k id
          (ap (λ ws. has_card ws id) kept.0 ∙ stale.0, ap (λ r. get r id) kept.1 ∙ stale.1))
]

all_gone-IsStale :
    (before page : Page) (ids shown : List Str) (id : Str)
    → IsStale before page id
    → IsStale before (remove_all_gone page ids shown) id
unfolding remove_all_gone
all_gone-IsStale before page ids [] id stale = stale
all_gone-IsStale before page ids (k ∷ shown) id stale =
    all_gone-IsStale before (if includes ids k then page else remove_gone page k) ids shown id
      (elim (Bool-cases (includes ids k)) [
        | inl e ↦ rw e stale
        | inr e ↦ rw e (gone-IsStale before page k id stale)
      ])

-- A device that the list does not have any more is not shown once the list is loaded, by sections or in
-- one grid, but its entry in the registry stays as it was, when every card before had the id of its device
-- and the id of every device in the list has a text.
pub load_devices-registry :
    (page : Page) (view : ViewMode) (order : List Str) (groups : List (Str × List Device))
    (id : Str)
    → all_named page.cards ≡ true
    → all_named (view_cards view) ≡ true
    → all_ided (all_devices groups) ≡ true
    → includes (map get_device_id (all_devices groups)) id ≡ false
    → (has_card (load_devices page view order groups).cards id ≡ false)
      × (get (load_devices page view order groups).registry id ≡ get page.registry id)
unfolding load_devices
load_devices-registry page view order groups id h n ided gone =
    all_gone-IsStale page (render_devices_list page view order groups).0
      (map get_device_id (all_devices groups)) (filter_truthy (map card_id page.cards)) id
      (
        render_devices_list-has_card page view order groups id h n ided ∙ gone,
        render_devices_list-registry page view order groups id h n ided gone,
      )
