-- ===== src/DeviceList/Render/Grids.antt =====
-- The grids of the sections, put together.
use ms_robot.DeviceList.Render.Gone.{all_named, stay-none}
use ms_robot.DeviceList.Render.Listed.{all_listed}
use ms_robot.Base.Maps.{get, put}
use ms_robot.DeviceList.Render.{
  keep_sections, Card, Sections, has_card, includes, cards_at, cards_in, stay_in,
}
use ms_robot.Base.{
  none, some, true, refl, inl, inr, [], ◌∷◌, arith, List, Str, ◌++◌, ◌≡◌, Bool, str_eq_iff, ◌&&◌,
  ◌||◌, sym, Bool-cases, str_eq, ◌∙◌, ap, if◌then◌else◌,
}

listed-both :
    (current : List Str) (xs ys : List Card)
    → all_listed current (xs ++ ys) ≡ (all_listed current xs && all_listed current ys)
listed-both current [] ys = refl
listed-both current (x ∷ xs) ys = ground (arith, listed-both current xs ys)

pub has_card-both :
    (xs ys : List Card) (id : Str) → has_card (xs ++ ys) id ≡ (has_card xs id || has_card ys id)
has_card-both [] ys id = refl
has_card-both (x ∷ xs) ys id = ground (arith, has_card-both xs ys id)

named-both : (xs ys : List Card) → all_named (xs ++ ys) ≡ (all_named xs && all_named ys)
named-both [] ys = refl
named-both (x ∷ xs) ys = ground (arith, named-both xs ys)

pub cards_at-listed :
    (current : List Str) (s : Sections) (key : Str)
    → all_listed current (cards_in s) ≡ true
    → all_listed current (cards_at s key) ≡ true
unfolding get
cards_at-listed current [] key h = refl
cards_at-listed current ((k, ws) ∷ s) key h =
    ground (arith, listed-both current ws (cards_in s), cards_at-listed current s key)

pub put-listed :
    (current : List Str) (s : Sections) (key : Str) (ws : List Card)
    → all_listed current (cards_in s) ≡ true
    → all_listed current ws ≡ true
    → all_listed current (cards_in (put s key ws)) ≡ true
unfolding put
put-listed current [] key ws h l = ground (arith, l, listed-both current ws [])
put-listed current ((k, vs) ∷ s) key ws h l = ground (
  arith,
  listed-both current vs (cards_in s),
  listed-both current ws (cards_in s),
  listed-both current vs (cards_in (put s key ws)),
  put-listed current s key ws,
)

pub has_card-put :
    (s : Sections) (key : Str) (ws : List Card) (id : Str) (b : Bool)
    → has_card ws id ≡ (has_card (cards_at s key) id || b)
    → has_card (cards_in (put s key ws)) id ≡ (has_card (cards_in s) id || b)
unfolding put get
has_card-put [] key ws id b h = ground (arith, h, has_card-both ws [] id)
has_card-put ((k, vs) ∷ s) key ws id b h = elim (Bool-cases (str_eq k key)) [
  | inl e ↦
      let at : has_card ws id ≡ (has_card vs id || b) =
        h
        ∙ ap
            (λ t.
              has_card (elim (if t then some vs else get s key) [ none ↦ [] | some us ↦ us ]) id
              || b)
            e in
      rw e (ground (arith, at, has_card-both vs (cards_in s) id, has_card-both ws (cards_in s) id))
  | inr e ↦
      let at : has_card ws id ≡ (has_card (cards_at s key) id || b) =
        h
        ∙ ap
            (λ t.
              has_card (elim (if t then some vs else get s key) [ none ↦ [] | some us ↦ us ]) id
              || b)
            e in
      rw e (
        ground (
          arith,
          has_card-put s key ws id b at,
          has_card-both vs (cards_in s) id,
          has_card-both vs (cards_in (put s key ws)) id,
        ))
]

-- A section with cards has one of the keys.
abbrev has_key : List Str → Str → List Card → Bool
has_key keys key [] = true
has_key keys key (w ∷ ws) = includes keys key

abbrev pub placed : List Str → Sections → Bool
placed keys [] = true
placed keys ((key, ws) ∷ s) = has_key keys key ws && placed keys s

pub placed-put :
    (keys : List Str) (s : Sections) (key : Str) (ws : List Card)
    → includes keys key ≡ true
    → placed keys s ≡ true
    → placed keys (put s key ws) ≡ true
unfolding put
placed-put keys [] key [] i h = refl
placed-put keys [] key (w ∷ ws) i h = ground (arith, i)
placed-put keys ((k, vs) ∷ s) key [] i h = ground (arith, placed-put keys s key [] i)
placed-put keys ((k, vs) ∷ s) key (w ∷ ws) i h =
    ground (arith, placed-put keys s key (w ∷ ws) i, str_eq_iff k key)

pub keep-has_card :
    (order keys : List Str) (s : Sections) (id : Str)
    → placed keys s ≡ true
    → has_card (cards_in (keep_sections order keys s)) id ≡ has_card (cards_in s) id
unfolding keep_sections
keep-has_card order keys [] id h = refl
keep-has_card order keys ((key, []) ∷ s) id h = ground (arith, keep-has_card order keys s id)
keep-has_card order keys ((key, w ∷ ws) ∷ s) id h = ground (
  arith,
  keep-has_card order keys s id,
  has_card-both ws (cards_in s) id,
  has_card-both ws (cards_in (keep_sections order keys s)) id,
)

pub stay_in-none :
    (keys : List Str) (s : Sections)
    → all_named (cards_in s) ≡ true
    → (cards_in (stay_in s) ≡ []) × (placed keys (stay_in s) ≡ true)
stay_in-none keys [] h = (refl, refl)
stay_in-none keys ((key, ws) ∷ s) h =
    let both = sym (named-both ws (cards_in s)) ∙ h in
    let gone = stay-none ws (ground (arith, both)) in
    rw gone (stay_in-none keys s (ground (arith, both)))
