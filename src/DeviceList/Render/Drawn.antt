-- ===== src/DeviceList/Render/Drawn.antt =====
-- What a redraw of the list shows, by sections and in one grid.
use ms_robot.DeviceList.Render.Grids.{
  cards_at-listed, placed, has_card-put, put-listed, placed-put, stay_in-none, keep-has_card,
}
use ms_robot.DeviceList.Render.Gone.{
  is_keyed, registry-fill, has_card-fill, all_named, existing-is_keyed, drop_unused-keeps,
  stay-none,
}
use ms_robot.DeviceList.Render.Listed.{
  all_ided, all_listed, fill_each-keyed, listed-more, fill_each-listed, all_in_self,
  fill_device_grid-each,
}
use ms_robot.DeviceList.Render.{
  Drawing, Device, has_card, Page, includes, draw_section, cards_at, cards_in, put, fill_each,
  get_device_id, get, Map, Card, ViewMode, Sections, draw_sections, render_devices_list, sections,
  stay_in, all_devices, single_grid, stay, fill_device_grid, existing_items, drop_unused,
}
use ms_robot.Base.{
  true, false, refl, [], ◌∷◌, arith, List, Str, ◌≡◌, ◌||◌, map, ◌++◌, ap, str_eq_refl, ◌∙◌, ◌&&◌,
  sym, Bool,
}

-- While the sections are filled: the cards taken out stand under their ids, the cards in the grids are
-- listed, and only sections with one of the keys have cards.
record IsDrawn (keys : List Str) (dr : Drawing) : Type 0 where
  keyed : is_keyed dr.existing ≡ true
  listed : all_listed dr.current (cards_in dr.sections) ≡ true
  in_keys : placed keys dr.sections ≡ true

module _ (keys : List Str) (dr : Drawing) (key : Str) (ds : List Device) (ok : IsDrawn keys dr)
    (ided : all_ided ds ≡ true) where
  grid : Page
  grid = record dr.page { cards = cards_at dr.sections key }

  grid-listed : all_listed dr.current (cards_at dr.sections key) ≡ true
  grid-listed = cards_at-listed dr.current dr.sections key ok.listed

  -- The drawing once the grid is filled.
  abbrev drawn : Page × Map Card → Drawing
  drawn st = record {
    sections = put dr.sections key st.0.cards;
    page = st.0;
    existing = st.1;
    current = dr.current ++ map get_device_id ds;
  }

  draw_section-each : draw_section dr key ds ≡ drawn (fill_each (grid, dr.existing) ds)
  unfolding draw_section grid
  draw_section-each =
      ap drawn (fill_device_grid-each dr.current grid dr.existing ds ok.keyed ided grid-listed)

  draw_section-IsDrawn : includes keys key ≡ true → IsDrawn keys (draw_section dr key ds)
  unfolding grid
  draw_section-IsDrawn i =
      let ids = dr.current ++ map get_device_id ds in
      rw draw_section-each (record {
        keyed = fill_each-keyed grid dr.existing ds ok.keyed;
        listed =
            put-listed ids dr.sections key (fill_each (grid, dr.existing) ds).0.cards
              (listed-more dr.current (map get_device_id ds) (cards_in dr.sections) ok.listed)
              (fill_each-listed ids grid dr.existing ds ok.keyed ided (all_in_self dr.current ds) (
                listed-more dr.current (map get_device_id ds) (cards_at dr.sections key)
                  grid-listed));
        in_keys = placed-put keys dr.sections key _ i ok.in_keys;
      })

  draw_section-has_card :
      (id : Str)
      → has_card (cards_in (draw_section dr key ds).sections) id
        ≡ (has_card (cards_in dr.sections) id || includes (map get_device_id ds) id)
  unfolding grid
  draw_section-has_card id = rw draw_section-each (
      has_card-put dr.sections key (fill_each (grid, dr.existing) ds).0.cards id
        (includes (map get_device_id ds) id) (has_card-fill grid dr.existing ds id ok.keyed))

  draw_section-registry :
      (id : Str)
      → includes (map get_device_id ds) id ≡ false
      → get (draw_section dr key ds).page.registry id ≡ get dr.page.registry id
  unfolding grid
  draw_section-registry id gone = rw draw_section-each (registry-fill grid dr.existing ds id gone)

abbrev group_keys : List (Str × List Device) → List Str
group_keys groups = map (λ g. g.0) groups

abbrev groups_in : List Str → List (Str × List Device) → Bool
groups_in keys [] = true
groups_in keys ((key, ds) ∷ groups) = includes keys key && groups_in keys groups

groups_in-more :
    (key : Str) (keys : List Str) (groups : List (Str × List Device))
    → groups_in keys groups ≡ true
    → groups_in (key ∷ keys) groups ≡ true
groups_in-more key keys [] h = refl
groups_in-more key keys ((k, ds) ∷ groups) h = ground (arith, groups_in-more key keys groups)

groups_in_self : (groups : List (Str × List Device)) → groups_in (group_keys groups) groups ≡ true
groups_in_self [] = refl
groups_in_self ((key, ds) ∷ groups) =
    ground (
      arith,
      groups_in-more key (group_keys groups) groups (groups_in_self groups),
      str_eq_refl key,
    )

ided-both : (xs ys : List Device) → all_ided (xs ++ ys) ≡ (all_ided xs && all_ided ys)
ided-both [] ys = refl
ided-both (x ∷ xs) ys = ground (arith, ided-both xs ys)

includes-devices :
    (xs ys : List Device) (id : Str)
    → includes (map get_device_id (xs ++ ys)) id
      ≡ (includes (map get_device_id xs) id || includes (map get_device_id ys) id)
includes-devices [] ys id = refl
includes-devices (x ∷ xs) ys id = ground (arith, includes-devices xs ys id)

draw_sections-IsDrawn :
    (keys : List Str) (dr : Drawing) (groups : List (Str × List Device))
    → IsDrawn keys dr
    → groups_in keys groups ≡ true
    → all_ided (all_devices groups) ≡ true
    → IsDrawn keys (draw_sections dr groups)
unfolding draw_sections
draw_sections-IsDrawn keys dr [] ok g t = ok
draw_sections-IsDrawn keys dr ((key, ds) ∷ groups) ok g t =
    let both = sym (ided-both ds (all_devices groups)) ∙ t in
    draw_sections-IsDrawn keys (draw_section dr key ds) groups
      (draw_section-IsDrawn keys dr key ds ok (ground (arith, both)) (ground (arith, g)))
      (ground (arith, g)) (ground (arith, both))

draw_sections-has_card :
    (keys : List Str) (dr : Drawing) (groups : List (Str × List Device)) (id : Str)
    → IsDrawn keys dr
    → groups_in keys groups ≡ true
    → all_ided (all_devices groups) ≡ true
    → has_card (cards_in (draw_sections dr groups).sections) id
      ≡ (has_card (cards_in dr.sections) id || includes (map get_device_id (all_devices groups)) id)
unfolding draw_sections
draw_sections-has_card keys dr [] id ok g t = ground arith
draw_sections-has_card keys dr ((key, ds) ∷ groups) id ok g t =
    let both = sym (ided-both ds (all_devices groups)) ∙ t in
    let ided : all_ided ds ≡ true = ground (arith, both) in
    let i : includes keys key ≡ true = ground (arith, g) in
    ground (
      arith,
      draw_sections-has_card keys (draw_section dr key ds) groups id
          (draw_section-IsDrawn keys dr key ds ok ided i) (ground (arith, g))
          (ground (arith, both)),
      draw_section-has_card keys dr key ds ok ided id,
      includes-devices ds (all_devices groups) id,
    )

draw_sections-registry :
    (keys : List Str) (dr : Drawing) (groups : List (Str × List Device)) (id : Str)
    → IsDrawn keys dr
    → groups_in keys groups ≡ true
    → all_ided (all_devices groups) ≡ true
    → includes (map get_device_id (all_devices groups)) id ≡ false
    → get (draw_sections dr groups).page.registry id ≡ get dr.page.registry id
unfolding draw_sections
draw_sections-registry keys dr [] id ok g t gone = refl
draw_sections-registry keys dr ((key, ds) ∷ groups) id ok g t gone =
    let both = sym (ided-both ds (all_devices groups)) ∙ t in
    let ided : all_ided ds ≡ true = ground (arith, both) in
    let i : includes keys key ≡ true = ground (arith, g) in
    let out = sym (includes-devices ds (all_devices groups) id) ∙ gone in
    draw_sections-registry keys (draw_section dr key ds) groups id
      (draw_section-IsDrawn keys dr key ds ok ided i) (ground (arith, g)) (ground (arith, both))
      (ground (arith, out))
    ∙ draw_section-registry keys dr key ds ok ided id (ground (arith, out))

-- The cards in the grids of a view.
abbrev pub view_cards : ViewMode → List Card
view_cards single_grid = []
view_cards (sections s) = cards_in s

-- The drawing with which the loop over the sections begins.
abbrev begin_drawing : Page → Sections → Drawing
begin_drawing page s = record {
  sections = stay_in s;
  page = page;
  existing = existing_items page.cards [];
  current = [];
}

begin-IsDrawn :
    (page : Page) (s : Sections) (keys : List Str)
    → all_named page.cards ≡ true
    → all_named (cards_in s) ≡ true
    → IsDrawn keys (begin_drawing page s)
begin-IsDrawn page s keys h n =
    let start_ = stay_in-none keys s n in
    record {
      keyed = existing-is_keyed page.cards [] h refl;
      listed = ap (all_listed []) start_.0;
      in_keys = start_.1;
    }

module _ (page : Page) (groups : List (Str × List Device)) (h : all_named page.cards ≡ true)
    (ided : all_ided (all_devices groups) ≡ true) where
  in_grid :
      fill_device_grid []
        (record page { cards = stay page.cards }, existing_items page.cards [])
        (all_devices groups)
      ≡ fill_each
          (record page { cards = stay page.cards }, existing_items page.cards [])
          (all_devices groups)
  in_grid =
      fill_device_grid-each [] (record page { cards = stay page.cards })
        (existing_items page.cards []) (all_devices groups) (existing-is_keyed page.cards [] h refl)
        ided (ap (all_listed []) (stay-none page.cards h))

-- After the list is drawn again, in the view by sections or in one grid, the cards shown are exactly
-- those of the devices in the list, when every card before had the id of its device and the id of
-- every device in the list has a text.
pub render_devices_list-has_card :
    (page : Page) (view : ViewMode) (order : List Str) (groups : List (Str × List Device))
    (id : Str)
    → all_named page.cards ≡ true
    → all_named (view_cards view) ≡ true
    → all_ided (all_devices groups) ≡ true
    → has_card (render_devices_list page view order groups).0.cards id
      ≡ includes (map get_device_id (all_devices groups)) id
unfolding render_devices_list
render_devices_list-has_card page single_grid order groups id h n ided =
    let start_ : Page = record page { cards = stay page.cards } in
    let existing = existing_items page.cards [] in
    let filled = fill_each (start_, existing) (all_devices groups) in
    ap (λ (st : Page × Map Card). has_card (drop_unused st.0 st.1).cards id)
      (in_grid page groups h ided)
    ∙ ap (λ ws. has_card ws id) (drop_unused-keeps filled.0 filled.1).0
    ∙ has_card-fill start_ existing (all_devices groups) id (existing-is_keyed page.cards [] h refl)
    ∙ ap (λ ws. has_card ws id || includes (map get_device_id (all_devices groups)) id)
        (stay-none page.cards h)
render_devices_list-has_card page (sections s) order groups id h n ided =
    let keys = group_keys groups in
    let dr = begin_drawing page s in
    let ok = begin-IsDrawn page s keys h n in
    let inside = groups_in_self groups in
    keep-has_card order keys (draw_sections dr groups).sections id
      (draw_sections-IsDrawn keys dr groups ok inside ided).in_keys
    ∙ draw_sections-has_card keys dr groups id ok inside ided
    ∙ ap (λ ws. has_card ws id || includes (map get_device_id (all_devices groups)) id)
        (stay_in-none keys s n).0

pub render_devices_list-registry :
    (page : Page) (view : ViewMode) (order : List Str) (groups : List (Str × List Device))
    (id : Str)
    → all_named page.cards ≡ true
    → all_named (view_cards view) ≡ true
    → all_ided (all_devices groups) ≡ true
    → includes (map get_device_id (all_devices groups)) id ≡ false
    → get (render_devices_list page view order groups).0.registry id ≡ get page.registry id
unfolding render_devices_list
render_devices_list-registry page single_grid order groups id h n ided gone =
    let start_ : Page = record page { cards = stay page.cards } in
    let existing = existing_items page.cards [] in
    let filled = fill_each (start_, existing) (all_devices groups) in
    ap (λ (st : Page × Map Card). get (drop_unused st.0 st.1).registry id)
      (in_grid page groups h ided)
    ∙ ap (λ r. get r id) (drop_unused-keeps filled.0 filled.1).1
    ∙ registry-fill start_ existing (all_devices groups) id gone
render_devices_list-registry page (sections s) order groups id h n ided gone =
    let keys = group_keys groups in
    let dr = begin_drawing page s in
    let ok = begin-IsDrawn page s keys h n in
    let last = draw_sections dr groups in
    ap (λ r. get r id) (drop_unused-keeps last.page last.existing).1
    ∙ draw_sections-registry keys dr groups id ok (groups_in_self groups) ided gone
