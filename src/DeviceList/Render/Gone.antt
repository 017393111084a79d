-- ===== src/DeviceList/Render/Gone.antt =====
-- What the loops over the devices of a grid and over the cards not used do.
use mathlib.Core.Option.{some-injective}
use ms_robot.Session.{Page}
use ms_robot.DeviceList.Render.{
  existing_items, update_first, Device, Card, has_card, stay, get_device_id, card_id, fill_one,
  get_device_api_udid, fill_each, cleanup_if, drop_unused, get_api_udid_for_card,
  create_device_card, includes, update_device_card_status,
}
use ms_robot.Base.Maps.{Map, put, delete, get, get-put}
use ms_robot.Status.{cleanup_connection, set_device_connection_state}
use ms_robot.Base.{
  refl, some, Str, truthy, List, ◌≡◌, ◌∷◌, Bool, ◌||◌, true, ◌++◌, arith, [], str_eq, str_eq_iff,
  ◌&&◌, if◌then◌else◌, Bool-cases, inl, sym, false, ap, inr, Option-cases, map, ◌∙◌, or_else-truthy,
}

-- Every card has the id of its device.
abbrev pub all_named : List Card → Bool
all_named [] = true
all_named (w ∷ ws) = truthy w.device_id && all_named ws

-- Each entry of the cards taken out is a card of the entry's id.
abbrev pub is_keyed : Map Card → Bool
is_keyed [] = true
is_keyed ((k, w) ∷ m) = str_eq k w.device_id && is_keyed m

pub is_keyed-put :
    (m : Map Card) (k : Str) (w : Card)
    → is_keyed m ≡ true
    → str_eq k w.device_id ≡ true
    → is_keyed (put m k w) ≡ true
unfolding put
is_keyed-put [] k w h e = ground arith
is_keyed-put ((j, v) ∷ m) k w h e =
    ground (
      arith,
      is_keyed-put m k w,
      str_eq_iff j k,
      str_eq_iff k w.device_id,
      str_eq_iff j w.device_id,
    )

pub is_keyed-delete : (m : Map Card) (k : Str) → is_keyed m ≡ true → is_keyed (delete m k) ≡ true
unfolding delete
is_keyed-delete [] k h = refl
is_keyed-delete ((j, v) ∷ m) k h = ground (arith, is_keyed-delete m k)

pub get-is_keyed :
    (m : Map Card) (k : Str) (w : Card) → is_keyed m ≡ true → get m k ≡ some w → w.device_id ≡ k
unfolding get
get-is_keyed [] k w h e = ground arith
get-is_keyed ((j, v) ∷ m) k w h e = elim (Bool-cases (str_eq j k)) [
  | inl same ↦
      let found : some v ≡ some w = rw (sym (ap (λ b. if b then some v else get m k) same)) e in
      let same_id : v.device_id ≡ w.device_id =
        ap (λ (c : Card). c.device_id) (some-injective v w found) in
      ground (arith, h, same, same_id, str_eq_iff j k, str_eq_iff j v.device_id)
  | inr ne ↦
      get-is_keyed m k w (ground (arith, h))
        (rw (sym (ap (λ b. if b then some v else get m k) ne)) e)
]

pub existing-is_keyed :
    (ws : List Card) (m : Map Card)
    → all_named ws ≡ true
    → is_keyed m ≡ true
    → is_keyed (existing_items ws m) ≡ true
unfolding existing_items
existing-is_keyed [] m h k = k
existing-is_keyed (w ∷ ws) m h k =
    existing-is_keyed ws (if truthy (card_id w) then put m (card_id w) w else m) (ground (arith, h))
      (ground (
        arith,
        is_keyed-put m (card_id w) w,
        or_else-truthy w.device_id w.udid,
        str_eq_iff (card_id w) w.device_id,
      ))

pub stay-none : (ws : List Card) → all_named ws ≡ true → stay ws ≡ []
stay-none [] h = refl
stay-none (w ∷ ws) h = ground (arith, stay-none ws, or_else-truthy w.device_id w.udid)

has_card-append :
    (ws : List Card) (w : Card) (id : Str)
    → has_card (ws ++ w ∷ []) id ≡ (has_card ws id || str_eq w.device_id id)
has_card-append [] w id = ground arith
has_card-append (v ∷ ws) w id = ground (arith, has_card-append ws w id)

has_card-update_first :
    (device : Device) (k : Str) (ws : List Card) (id : Str)
    → has_card (update_first device k ws) id ≡ has_card ws id
unfolding update_first
has_card-update_first device k [] id = refl
has_card-update_first device k (w ∷ ws) id = ground (arith, has_card-update_first device k ws id)

known-card :
    (ws : List Card) (k id : Str)
    → has_card ws k ≡ true
    → has_card ws id ≡ (has_card ws id || str_eq k id)
known-card [] k id h = absurd (ground arith)
known-card (w ∷ ws) k id h = ground (
  arith,
  known-card ws k id,
  str_eq_iff w.device_id k,
  str_eq_iff k id,
  str_eq_iff w.device_id id,
)

pub has_card-fill_one :
    (page : Page) (m : Map Card) (device : Device) (id : Str)
    → is_keyed m ≡ true
    → (has_card (fill_one (page, m) device).0.cards id
        ≡ (has_card page.cards id || str_eq (get_device_id device) id))
      × (is_keyed (fill_one (page, m) device).1 ≡ true)
unfolding fill_one
has_card-fill_one page m device id h =
    let k = get_device_id device in
    elim (Bool-cases (has_card page.cards k)) [
      | inl shown ↦
          rw (fill_one, shown)
            (
              rw (has_card-update_first device k page.cards id) (known-card page.cards k id shown),
              h,
            )
      | inr new ↦ elim (Option-cases (get m k)) [
        | inl e ↦
            rw (fill_one, new, e) (has_card-append page.cards (create_device_card device) id, h)
        | inr (w, e) ↦
            rw (fill_one, new, e)
              (
                has_card-append page.cards (update_device_card_status device w) id
                    ∙ ap (λ j. has_card page.cards id || str_eq j id) (get-is_keyed m k w h e),
                is_keyed-delete m k h,
              )
      ]
    ]

registry-fill_one :
    (page : Page) (m : Map Card) (device : Device) (id : Str)
    → str_eq (get_device_id device) id ≡ false
    → get (fill_one (page, m) device).0.registry id ≡ get page.registry id
unfolding fill_one
registry-fill_one page m device id ne =
    ground (arith, get-put page.registry (get_device_id device) id (get_device_api_udid device))

pub has_card-fill :
    (page : Page) (m : Map Card) (devices : List Device) (id : Str)
    → is_keyed m ≡ true
    → has_card (fill_each (page, m) devices).0.cards id
      ≡ (has_card page.cards id || includes (map get_device_id devices) id)
unfolding fill_each
has_card-fill page m [] id h = ground arith
has_card-fill page m (d ∷ ds) id h =
    let one = has_card-fill_one page m d id h in
    let st = fill_one (page, m) d in ground (arith, has_card-fill st.0 st.1 ds id one.1, one.0)

pub registry-fill :
    (page : Page) (m : Map Card) (devices : List Device) (id : Str)
    → includes (map get_device_id devices) id ≡ false
    → get (fill_each (page, m) devices).0.registry id ≡ get page.registry id
unfolding fill_each
registry-fill page m [] id h = refl
registry-fill page m (d ∷ ds) id h =
    let st = fill_one (page, m) d in
    registry-fill st.0 st.1 ds id (ground (arith, h))
    ∙ registry-fill_one page m d id (ground (arith, h))

pub cleanup_if-keeps :
    (page : Page) (api_udid : Str)
    → ((cleanup_if page api_udid).cards ≡ page.cards)
      × ((cleanup_if page api_udid).registry ≡ page.registry)
unfolding cleanup_connection set_device_connection_state get
cleanup_if-keeps page api_udid = ground arith

pub drop_unused-keeps :
    (page : Page) (m : Map Card)
    → ((drop_unused page m).cards ≡ page.cards) × ((drop_unused page m).registry ≡ page.registry)
unfolding drop_unused
drop_unused-keeps page [] = (refl, refl)
drop_unused-keeps page ((id, w) ∷ m) =
    let api_udid = get_api_udid_for_card page.registry w in
    let rest = drop_unused-keeps (cleanup_if page api_udid) m in
    let one = cleanup_if-keeps page api_udid in (rest.0 ∙ one.0, rest.1 ∙ one.1)
