-- ===== src/DeviceList/Sorted.antt =====
-- The order of the cards of a grid (`sortDeviceCards` of assets/web/static/js/app.js). The order of
-- texts, `localeCompare`, and `sort` of the browser are parameters.
use ms_robot.Base.Int.{ℤ, eq_ℤ, pos}
use ms_robot.Base.{
  none, some, true, false, refl, inl, inr, [], ◌∷◌, arith, Str, ℕ, List, ◌≡◌, Option, Bool, not,
  ◌++◌, ◌&&◌, if◌then◌else◌, Bool-cases, Option-cases,
}
use mathlib.Core.List.{Perm, perm_middle}
use mathlib.Core.List.Perm

-- An item of a grid: whether it has a card, and the name and serial of the card's device, if it has its
-- data.
pub record GridItem : Type 0 where
  pub element : ℕ
  pub has_wrapper : Bool
  pub device_data : Option (Str × Str)

has_data : GridItem → Bool
has_data item = item.has_wrapper && elim item.device_data [ none ↦ false | some _ ↦ true ]

lacks_data : GridItem → Bool
lacks_data item = item.has_wrapper && elim item.device_data [ none ↦ true | some _ ↦ false ]

pub filter_items : (GridItem → Bool) → List GridItem → List GridItem
filter_items p [] = []
filter_items p (x ∷ xs) = let rest = filter_items p xs in if p x then x ∷ rest else rest

texts : Option (Str × Str) → Str × Str
texts none = ([], [])
texts (some d) = d

module _ (to_lower_case : Str → Str) (locale_compare : Str → Str → ℤ)
    (sort : (GridItem → GridItem → ℤ) → List GridItem → List GridItem) where
  -- By name, and by serial where the names are the same.
  pub compare_items : GridItem → GridItem → ℤ
  unfolding texts
  compare_items a b =
      let c =
        locale_compare (to_lower_case (texts a.device_data).0)
          (to_lower_case (texts b.device_data).0) in
      if eq_ℤ c (pos 0)
      then locale_compare (to_lower_case (texts a.device_data).1)
          (to_lower_case (texts b.device_data).1)
      else c

  -- The items that are put back into the grid: those with data in order, then the others.
  pub sort_device_cards : List GridItem → List GridItem
  unfolding has_data lacks_data
  sort_device_cards items =
      sort compare_items (filter_items has_data items) ++ filter_items lacks_data items

abbrev pub all_wrapped : List GridItem → Bool
all_wrapped [] = true
all_wrapped (x ∷ xs) = x.has_wrapper && all_wrapped xs

lacks-not : (x : GridItem) → x.has_wrapper ≡ true → lacks_data x ≡ not (has_data x)
unfolding has_data lacks_data
lacks-not x h = elim (Option-cases x.device_data) [
  | inl e ↦ rw (h, e) refl
  | inr (d, e) ↦ rw (h, e) refl
]

parts-Perm :
    (xs : List GridItem)
    → all_wrapped xs ≡ true
    → Perm (filter_items has_data xs ++ filter_items lacks_data xs) xs
unfolding filter_items
parts-Perm [] h = Perm.refl []
parts-Perm (x ∷ xs) h =
    let ih = parts-Perm xs (ground (arith, h)) in
    let other = lacks-not x (ground (arith, h)) in
    elim (Bool-cases (has_data x)) [
      | inl e ↦ rw (other, e) (Perm.cons x ih)
      | inr e ↦
          rw (other, e)
            (Perm.trans (perm_middle (filter_items has_data xs) (filter_items lacks_data xs))
              (Perm.cons x ih))
    ]

-- Where every item of a grid has its card, and the browser's sort only orders, the grid holds the same
-- items afterwards, each as often as before.
pub sort_device_cards-Perm :
    (to_lower_case : Str → Str) (locale_compare : Str → Str → ℤ)
    (sort : (GridItem → GridItem → ℤ) → List GridItem → List GridItem) (items : List GridItem)
    → ((compare : GridItem → GridItem → ℤ) (xs : List GridItem) → Perm (sort compare xs) xs)
    → all_wrapped items ≡ true
    → Perm (sort_device_cards to_lower_case locale_compare sort items) items
unfolding sort_device_cards
sort_device_cards-Perm to_lower_case locale_compare sort items orders h =
    Perm.trans
      (Perm.append_right (filter_items lacks_data items)
        (orders (compare_items to_lower_case locale_compare sort) (filter_items has_data items)))
      (parts-Perm items h)
