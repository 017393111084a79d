-- ===== src/DeviceList/Render/Listed.antt =====
-- No card is left in a grid that is not listed.
use ms_robot.DeviceList.Render.Gone.{is_keyed, has_card-fill_one, get-is_keyed}
use ms_robot.DeviceList.Render.{
  fill_each, update_first, fill_one, fill_device_grid, drop_unlisted, Device, Page, Map, Card,
  includes, is_listed, card_id, get_device_id, has_card, update_device_card_status, get,
  create_device_card,
}
use ms_robot.Base.{
  true, refl, inl, inr, [], ◌∷◌, arith, List, Str, truthy, Bool, ◌++◌, ◌≡◌, Bool-cases,
  or_else-truthy, str_eq, str_eq_iff, Option-cases, map, ap, ◌&&◌, ◌||◌, str_eq_refl, ◌∙◌,
}

-- The id of every device has a text.
abbrev pub all_ided : List Device → Bool
all_ided [] = true
all_ided (d ∷ ds) = truthy (get_device_id d) && all_ided ds

abbrev pub all_listed : List Str → List Card → Bool
all_listed current [] = true
all_listed current (w ∷ ws) = is_listed current w && all_listed current ws

abbrev all_in : List Str → List Device → Bool
all_in current [] = true
all_in current (d ∷ ds) = includes current (get_device_id d) && all_in current ds

pub includes-append :
    (xs ys : List Str) (id : Str) → includes (xs ++ ys) id ≡ (includes xs id || includes ys id)
includes-append [] ys id = refl
includes-append (x ∷ xs) ys id = ground (arith, includes-append xs ys id)

pub listed-more :
    (xs ys : List Str) (ws : List Card) → all_listed xs ws ≡ true → all_listed (xs ++ ys) ws ≡ true
listed-more xs ys [] h = refl
listed-more xs ys (w ∷ ws) h =
    ground (arith, listed-more xs ys ws, includes-append xs ys (card_id w))

all_in-more :
    (xs : List Str) (d : Device) (ds : List Device)
    → all_in (xs ++ map get_device_id ds) ds ≡ true
    → all_in (xs ++ get_device_id d ∷ map get_device_id ds) ds ≡ true
all_in-more xs d ds h = in_more ds h
  where
    in_more :
        (es : List Device)
        → all_in (xs ++ map get_device_id ds) es ≡ true
        → all_in (xs ++ get_device_id d ∷ map get_device_id ds) es ≡ true
    in_more [] h = refl
    in_more (e ∷ es) h = ground (
      arith,
      in_more es,
      includes-append xs (map get_device_id ds) (get_device_id e),
      includes-append xs (get_device_id d ∷ map get_device_id ds) (get_device_id e),
    )

pub all_in_self : (xs : List Str) (ds : List Device) → all_in (xs ++ map get_device_id ds) ds ≡ true
all_in_self xs [] = refl
all_in_self xs (d ∷ ds) = ground (
  arith,
  all_in-more xs d ds (all_in_self xs ds),
  includes-append xs (map get_device_id (d ∷ ds)) (get_device_id d),
  str_eq_refl (get_device_id d),
)

listed-card :
    (current : List Str) (w : Card)
    → truthy w.device_id ≡ true
    → includes current w.device_id ≡ true
    → is_listed current w ≡ true
listed-card current w t h = rw (or_else-truthy w.device_id w.udid t) (ground (arith, h))

listed-append :
    (current : List Str) (ws : List Card) (w : Card)
    → all_listed current ws ≡ true
    → is_listed current w ≡ true
    → all_listed current (ws ++ w ∷ []) ≡ true
listed-append current [] w h l = ground (arith, l)
listed-append current (v ∷ ws) w h l = ground (arith, listed-append current ws w)

listed-update_first :
    (current : List Str) (device : Device) (id : Str) (ws : List Card)
    → truthy id ≡ true
    → includes current id ≡ true
    → all_listed current ws ≡ true
    → all_listed current (update_first device id ws) ≡ true
unfolding update_first
listed-update_first current device id [] t i h = refl
listed-update_first current device id (w ∷ ws) t i h = elim (Bool-cases (str_eq w.device_id id)) [
  | inl e ↦
      let same = (str_eq_iff w.device_id id).0 e in
      let card =
        listed-card current (update_device_card_status device w) (ap truthy same ∙ t)
          (ap (includes current) same ∙ i) in
      rw e (ground (arith, h, card))
  | inr e ↦ rw e (ground (arith, h, listed-update_first current device id ws t i))
]

fill_one-listed :
    (current : List Str) (page : Page) (m : Map Card) (device : Device)
    → is_keyed m ≡ true
    → truthy (get_device_id device) ≡ true
    → includes current (get_device_id device) ≡ true
    → all_listed current page.cards ≡ true
    → all_listed current (fill_one (page, m) device).0.cards ≡ true
unfolding fill_one
fill_one-listed current page m device keyed t i h =
    let k = get_device_id device in
    elim (Bool-cases (has_card page.cards k)) [
      | inl shown ↦ rw (fill_one, shown) (listed-update_first current device k page.cards t i h)
      | inr new ↦ elim (Option-cases (get m k)) [
        | inl e ↦
            rw (fill_one, new, e)
              (listed-append current page.cards (create_device_card device) h
                (listed-card current (create_device_card device) t i))
        | inr (w, e) ↦
            let same = get-is_keyed m k w keyed e in
            rw (fill_one, new, e)
              (listed-append current page.cards (update_device_card_status device w) h (
                listed-card current (update_device_card_status device w) (ap truthy same ∙ t)
                  (ap (includes current) same ∙ i)))
      ]
    ]

pub fill_each-keyed :
    (page : Page) (m : Map Card) (ds : List Device)
    → is_keyed m ≡ true
    → is_keyed (fill_each (page, m) ds).1 ≡ true
unfolding fill_each
fill_each-keyed page m [] h = h
fill_each-keyed page m (d ∷ ds) h =
    let st = fill_one (page, m) d in
    fill_each-keyed st.0 st.1 ds (has_card-fill_one page m d [] h).1

pub fill_each-listed :
    (current : List Str) (page : Page) (m : Map Card) (ds : List Device)
    → is_keyed m ≡ true
    → all_ided ds ≡ true
    → all_in current ds ≡ true
    → all_listed current page.cards ≡ true
    → all_listed current (fill_each (page, m) ds).0.cards ≡ true
unfolding fill_each
fill_each-listed current page m [] keyed t i h = h
fill_each-listed current page m (d ∷ ds) keyed t i h =
    let st = fill_one (page, m) d in
    fill_each-listed current st.0 st.1 ds (has_card-fill_one page m d [] keyed).1
      (ground (arith, t)) (ground (arith, i))
      (fill_one-listed current page m d keyed (ground (arith, t)) (ground (arith, i)) h)

drop_unlisted-none :
    (current : List Str) (page : Page) (ws : List Card)
    → all_listed current ws ≡ true
    → drop_unlisted current page ws ≡ record page { cards = ws }
unfolding drop_unlisted
drop_unlisted-none current page [] h = refl
drop_unlisted-none current page (w ∷ ws) h =
    let one : is_listed current w ≡ true = ground (arith, h) in
    rw (drop_unlisted, one)
      (ap (λ (p : Page). record p { cards = w ∷ p.cards })
        (drop_unlisted-none current page ws (ground (arith, h))))

-- The end of `fillDeviceGrid` removes nothing: the cards with an id were taken out before.
pub fill_device_grid-each :
    (current : List Str) (page : Page) (m : Map Card) (ds : List Device)
    → is_keyed m ≡ true
    → all_ided ds ≡ true
    → all_listed current page.cards ≡ true
    → fill_device_grid current (page, m) ds ≡ fill_each (page, m) ds
unfolding fill_device_grid
fill_device_grid-each current page m ds keyed t h =
    let filled = fill_each (page, m) ds in
    let ids = current ++ map get_device_id ds in
    ap (λ (p : Page). (p, filled.1))
      (drop_unlisted-none ids filled.0 filled.0.cards (
        fill_each-listed ids page m ds keyed t (all_in_self current ds)
          (listed-more current (map get_device_id ds) page.cards h)))
