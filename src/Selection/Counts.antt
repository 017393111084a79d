-- ===== src/Selection/Counts.antt =====
-- The tick boxes and the counts show the cards' selection and status.
use ms_robot.Base.{
  Bool, List, ◌<◌, ◌≡◌, ℕ, map, length, ◌≤◌, suc, if◌then◌else◌, false, ap, arith, true, ◌+◌, [],
  refl, zero, Bool-cases, inl, inr, ◌&&◌, truthy, Str, codes, str_eq, str_eq_iff,
}
use mathlib.Core.List.{◌∷◌}
use ms_robot.Selection.{
  tick_box, section_box, selected_count, update_select_all_checkbox, update_section, select_all,
  toggle_at, set_counts, count_from, count_step, on_sync_change, get_selected_devices,
  with_selection, find_all,
}
use ms_robot.Session.{Page, Card}

selected_count-le : (cards : List Card) → selected_count cards ≤ length cards
unfolding selected_count
selected_count-le [] = omega arith
selected_count-le (w ∷ ws) = ground (arith, selected_count-le ws)

-- The box of a section and the box over all cards treat a group of cards alike.
update_section-eq : (cards : List Card) → update_section cards ≡ update_select_all_checkbox cards
unfolding update_section update_select_all_checkbox section_box tick_box
update_section-eq cards = ground (arith, selected_count-le cards)

selected_count-all :
    (cards : List Card) (b : Bool)
    → selected_count (map (with_selection b) cards) ≡ (if b then length cards else 0)
unfolding selected_count
selected_count-all [] b = ground arith
selected_count-all (w ∷ ws) b = ground (arith, selected_count-all ws b)

length-all : (cards : List Card) (b : Bool) → length (map (with_selection b) cards) ≡ length cards
length-all [] b = refl
length-all (w ∷ ws) b = ap suc (length-all ws b)

-- After a change of the box over all cards of a document with cards, the box shows what the user
-- chose and is not in its third state.
pub select_all-tick_box :
    (page : Page) (b : Bool)
    → 0 < length page.cards
    → (update_select_all_checkbox (select_all page b).cards).0
      ≡ record { checked = b; indeterminate = false }
unfolding update_select_all_checkbox select_all tick_box
select_all-tick_box page b h =
    rw (selected_count-all page.cards b, length-all page.cards b) (ground arith)

-- Two clicks on the same card leave the selection as it was.
toggle_at-twice : (cards : List Card) (n : ℕ) → toggle_at (toggle_at cards n) n ≡ cards
unfolding toggle_at
toggle_at-twice [] n = refl
toggle_at-twice (w ∷ ws) zero = elim (Bool-cases w.selected) [
  | inl e ↦ rw e refl
  | inr e ↦ rw e refl
]
toggle_at-twice (w ∷ ws) (suc n) = ap (λ l. w ∷ l) (toggle_at-twice ws n)

abbrev pub with_status : Str → List Card → ℕ
with_status status cards = length (find_all (λ w. str_eq w.status status) cards)

count_from-with_status :
    (cards : List Card) (n : ℕ × ℕ)
    → ((count_from n cards).0 ≡ n.0 + with_status (codes "online") cards)
      × ((count_from n cards).1 ≡ n.1 + with_status (codes "offline") cards)
unfolding count_from count_step
count_from-with_status [] n = ground arith
count_from-with_status (w ∷ ws) n = ground (
  arith,
  count_from-with_status ws (count_step w n),
  str_eq_iff w.status (codes "online"),
  str_eq_iff w.status (codes "offline"),
)

-- The counts of a group of cards are its numbers of cards with the status `online` and `offline`.
pub set_counts-with_status :
    (cards : List Card)
    → ((set_counts cards).online ≡ with_status (codes "online") cards)
      × ((set_counts cards).offline ≡ with_status (codes "offline") cards)
unfolding set_counts
set_counts-with_status cards = ground (arith, count_from-with_status cards (0, 0))

selected_devices-le :
    (ws : List Card)
    → length (map (λ (w : Card). w.device_id) (find_all (λ w. w.selected && truthy w.device_id) ws))
      ≤ selected_count ws
unfolding selected_count
selected_devices-le [] = omega arith
selected_devices-le (w ∷ ws) = ground (arith, selected_devices-le ws)

-- Synchronous operation that the user switches on has at least one selected card.
on_sync_change-selected :
    (page : Page) (ticked : Bool)
    → (on_sync_change page ticked).1 ≡ true
    → 0 < selected_count page.cards
unfolding on_sync_change get_selected_devices
on_sync_change-selected page true h = ground (arith, selected_devices-le page.cards)
on_sync_change-selected page false h = ground arith
