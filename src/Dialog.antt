-- ===== src/Dialog.antt =====
-- The dialogs that ask for confirmation (`showConfirmDialog` of assets/web/static/js/app.js). A dialog's
-- number stands for its two callbacks.
pub mod Once
use ms_robot.Session.{Card}
use ms_robot.FullScreen.{Screen, is_current, card_by_udid}
use ms_robot.Base.{
  none, some, true, false, refl, inl, inr, [], ◌∷◌, zero, suc, arith, Str, ℕ, List, Option, ◌++◌,
  if◌then◌else◌, Bool, ◌==◌, ◌||◌,
}

pub data Container : Type 0 where
  full_screen : Container
  device_card : Str → Container

pub record Dialog : Type 0 where
  pub number : ℕ
  pub device_udid : Str
  pub container : Container

-- `answers` holds the callbacks called: a dialog's number, and true for `onConfirm`, false for
-- `onCancel`.
pub record Dialogs : Type 0 where
  pub next : ℕ
  pub shown : List Dialog
  pub answers : List (ℕ × Bool)

card_container : Option Card → Option Container
card_container none = none
card_container (some w) = some (device_card w.device_id)

-- The full screen's picture for the device that it shows, the device's card otherwise.
container_of : Screen → Str → Option Container
unfolding card_container
container_of s device_udid =
    if is_current s.current device_udid
    then some full_screen
    else card_container (card_by_udid s.page.cards device_udid)

show_in : Dialogs → Str → Option Container → Dialogs
show_in ds device_udid none = ds
show_in ds device_udid (some c) = record ds {
  next = suc ds.next;
  shown = ds.shown ++ (record { number = ds.next; device_udid = device_udid; container = c }) ∷ [];
}

-- Without its container, a dialog is not shown.
pub show_confirm_dialog : Dialogs → Screen → Str → Dialogs
unfolding show_in container_of
show_confirm_dialog ds s device_udid = show_in ds device_udid (container_of s device_udid)

-- What a click meets: a button, the overlay itself, or the inside of the dialog.
pub data Place : Type 0 where
  confirm_button cancel_button overlay inside : Place

pub without : List Dialog → ℕ → List Dialog
without [] n = []
without (d ∷ ds) n = let rest = without ds n in if d.number == n then rest else d ∷ rest

pub is_shown : List Dialog → ℕ → Bool
is_shown [] n = false
is_shown (d ∷ ds) n = d.number == n || is_shown ds n

-- `closeDialog`, then the callback.
answer : Dialogs → ℕ → Bool → Dialogs
answer ds n confirmed =
    if is_shown ds.shown n
    then record ds { shown = without ds.shown n; answers = ds.answers ++ (n, confirmed) ∷ [] }
    else ds

pub on_dialog_click : Dialogs → ℕ → Place → Dialogs
on_dialog_click ds n confirm_button = answer ds n true
on_dialog_click ds n cancel_button = answer ds n false
on_dialog_click ds n overlay = answer ds n false
on_dialog_click ds n inside = ds

abbrev in_full_screen : Container → Bool
in_full_screen full_screen = true
in_full_screen (device_card _) = false

-- `focusVideoWrapper.innerHTML = ''` takes the dialogs of the full screen with it.
pub clear_full_screen : List Dialog → List Dialog
clear_full_screen [] = []
clear_full_screen (d ∷ ds) =
    let rest = clear_full_screen ds in if in_full_screen d.container then rest else d ∷ rest

pub data Event : Type 0 where
  show : Screen → Str → Event
  click : ℕ → Place → Event
  picture_changes : Event

pub on_event : Dialogs → Event → Dialogs
on_event ds (show s device_udid) = show_confirm_dialog ds s device_udid
on_event ds (click n place) = on_dialog_click ds n place
on_event ds picture_changes = record ds { shown = clear_full_screen ds.shown }

pub run : Dialogs → List Event → Dialogs
run ds [] = ds
run ds (e ∷ es) = run (on_event ds e) es
