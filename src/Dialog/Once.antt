-- ===== src/Dialog/Once.antt =====
-- No dialog is answered twice.
use ms_robot.Base.{
  none, some, true, false, inl, inr, [], ◌∷◌, arith, Str, ℕ, List, Option, ◌++◌, ◌+◌, Bool,
  if◌then◌else◌, ◌≡◌, ◌≤◌, Bool-cases, ==_iff, ◌==◌, ◌<◌,
}
use ms_robot.Dialog.{
  answer, show_in, container_of, on_dialog_click, without, run, Dialogs, on_event,
  clear_full_screen, is_shown, show_confirm_dialog, Event, show, Dialog, Place, Container, click,
  confirm_button, picture_changes, cancel_button, overlay, inside,
}

abbrev pub times_shown : List Dialog → ℕ → ℕ
times_shown [] n = 0
times_shown (d ∷ ds) n = (if d.number == n then 1 else 0) + times_shown ds n

abbrev pub times_answered : List (ℕ × Bool) → ℕ → ℕ
times_answered [] n = 0
times_answered ((k, b) ∷ as_) n = (if k == n then 1 else 0) + times_answered as_ n

times_shown-append :
    (ds : List Dialog) (d : Dialog) (n : ℕ)
    → times_shown (ds ++ d ∷ []) n ≡ times_shown ds n + (if d.number == n then 1 else 0)
times_shown-append [] d n = omega arith
times_shown-append (e ∷ ds) d n = omega (arith, times_shown-append ds d n)

times_answered-append :
    (l : List (ℕ × Bool)) (k : ℕ) (b : Bool) (n : ℕ)
    → times_answered (l ++ (k, b) ∷ []) n ≡ times_answered l n + (if k == n then 1 else 0)
times_answered-append [] k b n = omega arith
times_answered-append ((j, c) ∷ l) k b n = omega (arith, times_answered-append l k b n)

times_shown-without :
    (ds : List Dialog) (k n : ℕ)
    → times_shown (without ds k) n ≡ (if k == n then 0 else times_shown ds n)
unfolding without
times_shown-without [] k n = ground arith
times_shown-without (d ∷ ds) k n = ground (arith, times_shown-without ds k n)

is_shown-times : (ds : List Dialog) (n : ℕ) → is_shown ds n ≡ true → 0 < times_shown ds n
unfolding is_shown
is_shown-times [] n h = absurd (ground arith)
is_shown-times (d ∷ ds) n h = ground (arith, h, is_shown-times ds n)

times_shown-clear :
    (ds : List Dialog) (n : ℕ) → times_shown (clear_full_screen ds) n ≤ times_shown ds n
unfolding clear_full_screen
times_shown-clear [] n = omega arith
times_shown-clear (d ∷ ds) n = ground (arith, times_shown-clear ds n)

-- A dialog is shown or answered once at most, and not before it is numbered.
abbrev pub IsFresh : Dialogs → ℕ → Type 0
IsFresh ds n =
    (times_shown ds.shown n + times_answered ds.answers n ≤ 1)
    × (ds.next ≤ n → times_shown ds.shown n + times_answered ds.answers n ≡ 0)

show-IsFresh :
    (ds : Dialogs) (u : Str) (o : Option Container) (n : ℕ)
    → IsFresh ds n
    → IsFresh (show_in ds u o) n
unfolding show_in
show-IsFresh ds u none n ok = ok
show-IsFresh ds u (some c) n ok =
    let d : Dialog = record { number = ds.next; device_udid = u; container = c } in
    (
      ground (arith, ok.0, ok.1, times_shown-append ds.shown d n),
      λ h. ground (arith, h, ok.1, times_shown-append ds.shown d n),
    )

answer-IsFresh :
    (ds : Dialogs) (k : ℕ) (b : Bool) (n : ℕ) → IsFresh ds n → IsFresh (answer ds k b) n
unfolding answer
answer-IsFresh ds k b n ok = elim (Bool-cases (is_shown ds.shown k)) [
  | inr e ↦ rw e ok
  | inl e ↦ rw e (
    ground (
      arith,
      ok.0,
      is_shown-times ds.shown k e,
      ==_iff k n,
      times_shown-without ds.shown k n,
      times_answered-append ds.answers k b n,
    ),
    λ h. ground (
      arith,
      h,
      ok.1,
      is_shown-times ds.shown k e,
      ==_iff k n,
      times_shown-without ds.shown k n,
      times_answered-append ds.answers k b n,
    ),
  )
]

click-IsFresh :
    (ds : Dialogs) (k : ℕ) (p : Place) (n : ℕ) → IsFresh ds n → IsFresh (on_dialog_click ds k p) n
unfolding on_dialog_click
click-IsFresh ds k confirm_button n ok = answer-IsFresh ds k true n ok
click-IsFresh ds k cancel_button n ok = answer-IsFresh ds k false n ok
click-IsFresh ds k overlay n ok = answer-IsFresh ds k false n ok
click-IsFresh ds k inside n ok = ok

event-IsFresh : (ds : Dialogs) (e : Event) (n : ℕ) → IsFresh ds n → IsFresh (on_event ds e) n
unfolding on_event show_confirm_dialog
event-IsFresh ds (show s u) n ok = show-IsFresh ds u (container_of s u) n ok
event-IsFresh ds (click k p) n ok = click-IsFresh ds k p n ok
event-IsFresh ds picture_changes n ok =
    let less = times_shown-clear ds.shown n in
    (ground (arith, ok.0, less), λ h. ground (arith, h, ok.1, less))

run-IsFresh : (ds : Dialogs) (es : List Event) (n : ℕ) → IsFresh ds n → IsFresh (run ds es) n
unfolding run
run-IsFresh ds [] n ok = ok
run-IsFresh ds (e ∷ es) n ok = run-IsFresh (on_event ds e) es n (event-IsFresh ds e n ok)

abbrev pub no_dialogs : Dialogs
no_dialogs = record { next = 0; shown = []; answers = [] }

-- Whatever is shown and clicked, at most one callback of a dialog is called, once, and none while the
-- dialog is shown.
pub run-answers :
    (es : List Event) (n : ℕ)
    → times_shown (run no_dialogs es).shown n + times_answered (run no_dialogs es).answers n ≤ 1
run-answers es n = (run-IsFresh no_dialogs es n (omega arith, λ h. omega arith)).0
