-- ===== src/Shell/Windows/Ids.antt =====
-- The ids of the windows: how taking out, adding and changing a window treats them.
use ms_robot.Shell.Windows.{change, find_window, without}
use ms_robot.Base.{
  some, true, false, refl, inl, inr, [], ◌∷◌, suc, arith, ℕ, List, Bool, ◌≡◌, ◌++◌, ==_iff,
  Bool-cases, leb, ◌&&◌, ◌||◌, not, ◌==◌, ap, if◌then◌else◌, sym, ◌∙◌,
}
use ms_robot.Shell.{Window}

-- No window has the id; the windows have different ids; no id is above the bound.
abbrev pub absent : List Window → ℕ → Bool
absent [] id = true
absent (w ∷ ws) id = not (w.id == id) && absent ws id

abbrev pub distinct : List Window → Bool
distinct [] = true
distinct (w ∷ ws) = absent ws w.id && distinct ws

abbrev pub up_to : ℕ → List Window → Bool
up_to n [] = true
up_to n (w ∷ ws) = leb w.id n && up_to n ws

pub without-absent : (ws : List Window) (id : ℕ) → absent ws id ≡ true → without ws id ≡ ws
unfolding without
without-absent [] id h = refl
without-absent (w ∷ ws) id h = ground (arith, without-absent ws id, ==_iff w.id id)

-- What is there without a window, and what a change leaves.
pub absent-without :
    (ws : List Window) (id i : ℕ) → absent (without ws id) i ≡ (absent ws i || id == i)
unfolding without
absent-without [] id i = refl
absent-without (w ∷ ws) id i = ground (arith, absent-without ws id i)

pub distinct-without :
    (ws : List Window) (id : ℕ) → distinct ws ≡ true → distinct (without ws id) ≡ true
unfolding without
distinct-without [] id h = refl
distinct-without (w ∷ ws) id h =
    ground (arith, h, distinct-without ws id, absent-without ws id w.id)

pub up_to-without :
    (n : ℕ) (ws : List Window) (id : ℕ) → up_to n ws ≡ true → up_to n (without ws id) ≡ true
unfolding without
up_to-without n [] id h = refl
up_to-without n (w ∷ ws) id h = ground (arith, h, up_to-without n ws id)

pub absent-append :
    (ws : List Window) (w : Window) (i : ℕ)
    → absent (ws ++ w ∷ []) i ≡ (absent ws i && not (w.id == i))
absent-append [] w i = ground arith
absent-append (v ∷ ws) w i = ground (arith, absent-append ws w i)

pub distinct-append :
    (ws : List Window) (w : Window)
    → distinct ws ≡ true
    → absent ws w.id ≡ true
    → distinct (ws ++ w ∷ []) ≡ true
distinct-append [] w h a = refl
distinct-append (v ∷ ws) w h a = ground (arith, h, a, distinct-append ws w, absent-append ws w v.id)

pub up_to-append :
    (n : ℕ) (ws : List Window) (w : Window)
    → up_to n ws ≡ true
    → leb w.id n ≡ true
    → up_to n (ws ++ w ∷ []) ≡ true
up_to-append n [] w h a = ground (arith, a)
up_to-append n (v ∷ ws) w h a = ground (arith, h, up_to-append n ws w)

-- A new id is above all.
pub absent-up_to : (n : ℕ) (ws : List Window) → up_to n ws ≡ true → absent ws (suc n) ≡ true
absent-up_to n [] h = refl
absent-up_to n (w ∷ ws) h = ground (arith, h, absent-up_to n ws)

pub up_to-suc : (n : ℕ) (ws : List Window) → up_to n ws ≡ true → up_to (suc n) ws ≡ true
up_to-suc n [] h = refl
up_to-suc n (w ∷ ws) h = ground (arith, h, up_to-suc n ws)

-- A change that keeps the window's id keeps all.
pub absent-change :
    (ws : List Window) (id i : ℕ) (f : Window → Window)
    → ((w : Window) → (f w).id ≡ w.id)
    → absent (change ws id f) i ≡ absent ws i
unfolding change
absent-change [] id i f same = refl
absent-change (w ∷ ws) id i f same = ground (arith, same w, absent-change ws id i f same)

pub distinct-change :
    (ws : List Window) (id : ℕ) (f : Window → Window)
    → ((w : Window) → (f w).id ≡ w.id)
    → distinct (change ws id f) ≡ distinct ws
unfolding change
distinct-change [] id f same = refl
distinct-change (w ∷ ws) id f same =
    ground (arith, same w, distinct-change ws id f same, absent-change ws id w.id f same)

pub up_to-change :
    (n : ℕ) (ws : List Window) (id : ℕ) (f : Window → Window)
    → ((w : Window) → (f w).id ≡ w.id)
    → up_to n (change ws id f) ≡ up_to n ws
unfolding change
up_to-change n [] id f same = refl
up_to-change n (w ∷ ws) id f same = ground (arith, same w, up_to-change n ws id f same)

-- The window found has the id and is there.
pub find_window-id :
    (ws : List Window) (id : ℕ) (w : Window)
    → find_window ws id ≡ some w
    → (w.id ≡ id) × (absent ws id ≡ false)
unfolding find_window
find_window-id [] id w h = absurd (ground arith)
find_window-id (v ∷ ws) id w h = elim (Bool-cases (v.id == id)) [
  | inl e ↦ (ground (arith, h, e), ground (arith, e))
  | inr e ↦
      let rest =
        find_window-id ws id w (ap (λ b. if b then some v else find_window ws id) (sym e) ∙ h) in
      (rest.0, ground (arith, e, rest.1))
]

pub find_window-up_to :
    (n : ℕ) (ws : List Window) (id : ℕ) (w : Window)
    → find_window ws id ≡ some w
    → up_to n ws ≡ true
    → leb w.id n ≡ true
unfolding find_window
find_window-up_to n [] id w h u = absurd (ground arith)
find_window-up_to n (v ∷ ws) id w h u = elim (Bool-cases (v.id == id)) [
  | inl e ↦ ground (arith, h, e, u)
  | inr e ↦
      find_window-up_to n ws id w (ap (λ b. if b then some v else find_window ws id) (sym e) ∙ h)
        (ground (arith, u))
]
