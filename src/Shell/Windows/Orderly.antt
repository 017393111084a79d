-- ===== src/Shell/Windows/Orderly.antt =====
-- What holds of the windows after each operation.
use ms_robot.Shell.Handlers.Kept.{header-id, data-id}
use ms_robot.Shell.Bounds.{fit-id}
use ms_robot.Shell.Windows.Ids.{
  distinct, distinct-without, find_window-id, up_to-without, distinct-append, absent-without, up_to,
  up_to-append, find_window-up_to, absent-append, absent, distinct-change, absent-change,
  up_to-change, absent-up_to, up_to-suc,
}
use ms_robot.Base.{
  none, some, true, false, refl, inl, inr, [], ◌∷◌, suc, arith, Str, ℕ, Option, List, Option-cases,
  ==_iff, sym, ◌≡◌, Bool, not, ◌++◌, Bool-cases, ◌∙◌,
}
use ms_robot.Shell.Windows.{
  Desk, on_window, typed_found, chosen, close_found, raise_found, choose_window, close_shell_window,
  forget, bring_shell_window_to_front, open_shell_panel, on_window_down, find_window, on_drag_start,
  on_typed, without, focus_terminal, new_window, change,
}
use ms_robot.Shell.{Window, CellSize, Measures, ℤ, window_position, call, fit_shell_terminal, Call}
use ms_robot.Shell.Handlers.{on_header_down, on_data}

-- The chosen window, if there is one, is a window.
abbrev pub is_there : List Window → Option ℕ → Bool
is_there ws none = true
is_there ws (some id) = not (absent ws id)

-- The windows have different ids, counted so far, and the window that gets the keys is one of them.
pub record IsOrderly (desk : Desk) : Type 0 where
  pub different : distinct desk.windows ≡ true
  pub counted : up_to desk.count desk.windows ≡ true
  pub there : is_there desk.windows desk.active ≡ true

raised-there :
    (ws : List Window) (id : ℕ) (w : Window) (o : Option ℕ)
    → w.id ≡ id
    → is_there ws o ≡ true
    → is_there (without ws id ++ w ∷ []) o ≡ true
raised-there ws id w none e h = refl
raised-there ws id w (some a) e h = ground (
  arith,
  h,
  e,
  absent-append (without ws id) w a,
  absent-without ws id a,
  ==_iff id a,
  ==_iff w.id a,
)

forgotten-there :
    (ws : List Window) (id : ℕ) (o : Option ℕ)
    → is_there ws o ≡ true
    → is_there (without ws id) (forget o id) ≡ true
unfolding forget
forgotten-there ws id none h = refl
forgotten-there ws id (some a) h =
    ground (arith, h, absent-without ws id a, ==_iff id a, ==_iff a id)

appended-there :
    (ws : List Window) (w : Window) (o : Option ℕ)
    → is_there ws o ≡ true
    → is_there (ws ++ w ∷ []) o ≡ true
appended-there ws w none h = refl
appended-there ws w (some a) h = ground (arith, h, absent-append ws w a)

changed-there :
    (ws : List Window) (id : ℕ) (f : Window → Window) (o : Option ℕ)
    → ((w : Window) → (f w).id ≡ w.id)
    → is_there ws o ≡ true
    → is_there (change ws id f) o ≡ true
changed-there ws id f none same h = refl
changed-there ws id f (some a) same h = ground (arith, h, absent-change ws id a f same)

chosen-there :
    (ws : List Window) (id : ℕ) (o : Option Window)
    → ((w : Window) → o ≡ some w → (w.id ≡ id) × (absent ws id ≡ false))
    → is_there ws (chosen o) ≡ true
unfolding chosen
chosen-there ws id none h = refl
chosen-there ws id (some w) h = let f = h w refl in ground (arith, f.0, f.1)

raise-IsOrderly :
    (desk : Desk) (id : ℕ) → IsOrderly desk → IsOrderly (bring_shell_window_to_front desk id)
unfolding bring_shell_window_to_front raise_found
raise-IsOrderly desk id ok = elim (Option-cases (find_window desk.windows id)) [
  | inl e ↦ rw (e, bring_shell_window_to_front) ok
  | inr (w, e) ↦
      let found = find_window-id desk.windows id w e in
      rw (e, bring_shell_window_to_front)
        record {
          different =
              distinct-append (without desk.windows id) w
                (distinct-without desk.windows id ok.different)
                (ground (arith, absent-without desk.windows id w.id, ==_iff id w.id, sym found.0));
          counted =
              up_to-append desk.count (without desk.windows id) w
                (up_to-without desk.count desk.windows id ok.counted)
                (find_window-up_to desk.count desk.windows id w e ok.counted);
          there = raised-there desk.windows id w desk.active found.0 ok.there;
        }
]

pub close-IsOrderly :
    (desk : Desk) (id : ℕ) → IsOrderly desk → IsOrderly (close_shell_window desk id)
unfolding close_shell_window close_found
close-IsOrderly desk id ok = elim (Option-cases (find_window desk.windows id)) [
  | inl e ↦ rw (e, close_shell_window) ok
  | inr (w, e) ↦
      rw (e, close_shell_window)
        record {
          different = distinct-without desk.windows id ok.different;
          counted = up_to-without desk.count desk.windows id ok.counted;
          there = forgotten-there desk.windows id desk.active ok.there;
        }
]

pub open-IsOrderly :
    (cells : ℕ → CellSize → ℕ) (desk : Desk) (udid : Str) (click : Option (ℤ × ℤ)) (iw ih : ℕ)
    (m : Measures)
    → IsOrderly desk
    → IsOrderly (open_shell_panel cells desk udid click iw ih m)
unfolding open_shell_panel
open-IsOrderly cells desk udid click iw ih m ok =
    let w = new_window (suc desk.count) udid (window_position click iw ih (suc desk.count)) in
    let same = fit-id cells w m false in
    let v = call (fit_shell_terminal cells w m false) Call.focus in
    record {
      different =
          distinct-append desk.windows v ok.different
            (rw same (absent-up_to desk.count desk.windows ok.counted));
      counted =
          up_to-append (suc desk.count) desk.windows v
            (up_to-suc desk.count desk.windows ok.counted) (rw same (ground arith));
      there = appended-there desk.windows v desk.active ok.there;
    }

pub change-IsOrderly :
    (desk : Desk) (id : ℕ) (f : Window → Window)
    → ((w : Window) → (f w).id ≡ w.id)
    → IsOrderly desk
    → IsOrderly (on_window desk id f)
change-IsOrderly desk id f same ok = record {
  different = distinct-change desk.windows id f same ∙ ok.different;
  counted = up_to-change desk.count desk.windows id f same ∙ ok.counted;
  there = changed-there desk.windows id f desk.active same ok.there;
}

pub choose-IsOrderly : (desk : Desk) (id : ℕ) → IsOrderly desk → IsOrderly (choose_window desk id)
unfolding choose_window chosen focus_terminal
choose-IsOrderly desk id ok =
    change-IsOrderly (record desk { active = chosen (find_window desk.windows id) }) id
      (λ w. focus_terminal (focus_terminal w)) (λ w. ground arith)
      record {
        different = ok.different;
        counted = ok.counted;
        there =
            chosen-there desk.windows id (find_window desk.windows id)
              (λ w. find_window-id desk.windows id w);
      }

pub down-IsOrderly :
    (desk : Desk) (id : ℕ) (b : Bool) → IsOrderly desk → IsOrderly (on_window_down desk id b)
unfolding on_window_down focus_terminal
down-IsOrderly desk id true ok = change-IsOrderly desk id focus_terminal (λ w. ground arith) ok
down-IsOrderly desk id false ok = raise-IsOrderly desk id ok

pub drag-IsOrderly :
    (desk : Desk) (id : ℕ) (b : Bool) (x y l t : ℤ)
    → IsOrderly desk
    → IsOrderly (on_drag_start desk id b x y l t)
unfolding on_drag_start
drag-IsOrderly desk id true x y l t ok = ok
drag-IsOrderly desk id false x y l t ok =
    change-IsOrderly (bring_shell_window_to_front desk id) id (λ w. on_header_down w false x y l t)
      (λ w. header-id w x y l t) (raise-IsOrderly desk id ok)

pub typed-IsOrderly :
    (desk : Desk) (id : ℕ) (s : Str) → IsOrderly desk → IsOrderly (on_typed desk id s)
unfolding on_typed typed_found
typed-IsOrderly desk id s ok = elim (Option-cases (find_window desk.windows id)) [
  | inl e ↦ rw (e, on_typed) ok
  | inr (w, e) ↦ elim (Bool-cases (on_data w s).1) [
    | inl closing ↦ rw (e, on_typed, closing) (close-IsOrderly desk id ok)
    | inr stays ↦
        rw (e, on_typed, stays)
          (change-IsOrderly desk id (λ v. (on_data v s).0) (λ v. data-id v s) ok)
  ]
]
