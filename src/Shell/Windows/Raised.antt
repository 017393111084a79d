-- ===== src/Shell/Windows/Raised.antt =====
-- A window that is brought to the front.
use ms_robot.Shell.Windows.Ids.{distinct, without-absent}
use ms_robot.Base.{
  none, some, true, refl, inl, inr, [], ◌∷◌, arith, List, ℕ, ◌++◌, Option, ◌≡◌, Bool-cases, ◌==◌,
  ap, if◌then◌else◌, sym, ◌∙◌,
}
use mathlib.Core.List.{Perm, perm_middle, append-nil}
use mathlib.Core.List.Perm
use mathlib.Core.Option.{some-injective}
use ms_robot.Shell.Windows.{
  raise_found, bring_shell_window_to_front, without, Desk, find_window, Window,
}

-- The window on top.
abbrev pub topmost : List Window → Option Window
topmost [] = none
topmost (w ∷ ws) = elim (topmost ws) [ none ↦ some w | some v ↦ some v ]

topmost-append : (ws : List Window) (w : Window) → topmost (ws ++ w ∷ []) ≡ some w
topmost-append [] w = refl
topmost-append (v ∷ ws) w = ground (arith, topmost-append ws w)

raise-Perm :
    (ws : List Window) (id : ℕ) (w : Window)
    → distinct ws ≡ true
    → find_window ws id ≡ some w
    → Perm (without ws id ++ w ∷ []) ws
unfolding without find_window
raise-Perm [] id w d h = absurd (ground arith)
raise-Perm (v ∷ ws) id w d h = elim (Bool-cases (v.id == id)) [
  | inl e ↦
      let same : v.id ≡ id = ground (arith, e) in
      let found : some v ≡ some w = ap (λ b. if b then some v else find_window ws id) (sym e) ∙ h in
      let rest : without ws id ≡ ws = without-absent ws id (rw (sym same) (ground (arith, d))) in
      rw (e, rest, sym (some-injective v w found))
        (Perm.trans (perm_middle ws []) (rw (append-nil ws) (Perm.refl (v ∷ ws))))
  | inr e ↦ rw e (
      Perm.cons v (
        raise-Perm ws id w (ground (arith, d))
          (ap (λ b. if b then some v else find_window ws id) (sym e) ∙ h)))
]

-- Among windows of different ids, a window that is brought to the front is on top, and no window is
-- lost, added or changed.
pub bring_to_front-Perm :
    (desk : Desk) (id : ℕ) (w : Window)
    → distinct desk.windows ≡ true
    → find_window desk.windows id ≡ some w
    → Perm (bring_shell_window_to_front desk id).windows desk.windows
      × (topmost (bring_shell_window_to_front desk id).windows ≡ some w)
unfolding bring_shell_window_to_front raise_found
bring_to_front-Perm desk id w d h =
    rw (h, bring_shell_window_to_front)
      (raise-Perm desk.windows id w d h, topmost-append (without desk.windows id) w)
