-- ===== src/Selection.antt =====
-- The selection of device cards and the switch of synchronous operation
-- (assets/web/static/js/app.js).
pub mod Counts
use ms_robot.Identity.{find_all, decimal}
use ms_robot.Base.{
  Bool, ℕ, not, List, length, Str, ◌∷◌, suc, [], zero, false, map, if◌then◌else◌, true, ltb, str_eq,
  codes, ◌&&◌, ◌==◌, ◌++◌, truthy,
}
use ms_robot.Session.{Page, Card}

-- `getSelectedDevices`: the deviceIds of the selected cards that have one.
get_selected_devices : Page → List Str
get_selected_devices page =
    map (λ w. w.device_id) (find_all (λ w. w.selected && truthy w.device_id) page.cards)

-- A tick box with its third state.
pub record TickBox : Type 0 where
  pub checked : Bool
  pub indeterminate : Bool

-- The box over a group of cards: none, all or some of them are selected.
tick_box : ℕ → ℕ → TickBox
tick_box selected total =
    if selected == 0
    then record { checked = false; indeterminate = false }
    else if selected == total
    then record { checked = true; indeterminate = false }
    else record { checked = false; indeterminate = true }

-- The box of a section, which asks first whether the section has cards.
section_box : ℕ → ℕ → TickBox
section_box selected total =
    if total == 0
    then record { checked = false; indeterminate = false }
    else if selected == 0
    then record { checked = false; indeterminate = false }
    else if selected == total
    then record { checked = true; indeterminate = false }
    else record { checked = false; indeterminate = true }

selected_count : List Card → ℕ
selected_count cards = length (find_all (λ w. w.selected) cards)

-- `选中(n)`, or `选中` alone.
selected_text : ℕ → Str
selected_text n = if ltb 0 n then codes "选中(" ++ (decimal n ++ codes ")") else codes "选中"

pub update_select_all_checkbox : List Card → TickBox × Str
update_select_all_checkbox cards =
    (tick_box (selected_count cards) (length cards), selected_text (selected_count cards))

pub update_section : List Card → TickBox × Str
update_section cards =
    (section_box (selected_count cards) (length cards), selected_text (selected_count cards))

abbrev flip : Card → Card
flip w = record w { selected = not w.selected }

-- `toggleDeviceSelection`, on the card at a place of the document.
toggle_at : List Card → ℕ → List Card
toggle_at [] n = []
toggle_at (w ∷ ws) zero = flip w ∷ ws
toggle_at (w ∷ ws) (suc n) = w ∷ toggle_at ws n

abbrev toggle_device_selection : Page → ℕ → Page
toggle_device_selection page n = record page { cards = toggle_at page.cards n }

abbrev with_selection : Bool → Card → Card
with_selection b w = record w { selected = b }

-- The `change` of the box over all cards.
pub select_all : Page → Bool → Page
select_all page is_checked = record page { cards = map (with_selection is_checked) page.cards }

-- The `change` of the box of synchronous operation: it is ticked only if a device is selected. The
-- result is the page and whether the box stays ticked.
on_sync_change : Page → Bool → Page × Bool
on_sync_change page true = elim (get_selected_devices page) [
  | [] ↦ (page, false)
  | d ∷ ds ↦ (record page { sync_enabled = true }, true)
]
on_sync_change page false = (record page { sync_enabled = false }, false)

-- The counts of a group of cards: online, offline and all.
pub record Totals : Type 0 where
  pub online : ℕ
  pub offline : ℕ
  pub total : ℕ

count_step : Card → ℕ × ℕ → ℕ × ℕ
count_step w n =
    if str_eq w.status (codes "online")
    then (suc n.0, n.1)
    else if str_eq w.status (codes "offline")
    then (n.0, suc n.1)
    else n

count_from : ℕ × ℕ → List Card → ℕ × ℕ
count_from n [] = n
count_from n (w ∷ ws) = count_from (count_step w n) ws

pub set_counts : List Card → Totals
set_counts cards =
    let n = count_from (0, 0) cards in record { online = n.0; offline = n.1; total = length cards }
