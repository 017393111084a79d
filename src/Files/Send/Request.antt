-- ===== src/Files/Send/Request.antt =====
-- What is sent, and what stays of the page.
use ms_robot.Files.Batch.Devices.{in_reply, get_selected_android_devices-online}
use mathlib.Core.Option.{some-injective}
use ms_robot.Files.Send.{installing, note, cancel_install, close_button, backdrop}
use ms_robot.Files.{filter_ids, names_apk, selected_apks, render_file_list}
use ms_robot.Base.{
  none, some, true, false, refl, inl, inr, [], ◌∷◌, arith, Str, ◌≡◌, Bool, List, All, Option,
  Bool-cases, ◌∙◌, codes, if◌then◌else◌, sym, length, ap, ◌==◌,
}
use ms_robot.Files.Send.{
  install_on, install_answered, show_results, confirm_with, missing_devices, push_to,
  clear_selection, handle_batch_push, handle_batch_install, Manager, Answer, Closing, no_answer,
  body, confirm_install, ListDevice, get_selected_android_devices,
}

none-some {ℓ} : {A : Type ℓ} (a : A) → none ≡ some a → ⊥
none-some a h = ground (arith, h)

filter_ids-All : (p : Str → Bool) (ids : List Str) → All (λ id. p id ≡ true) (filter_ids p ids)
filter_ids-All p [] = tt
filter_ids-All p (x ∷ ids) = elim (Bool-cases (p x)) [
  | inl e ↦ rw e (e, filter_ids-All p ids)
  | inr e ↦ rw e (filter_ids-All p ids)
]

confirm-panel : (m : Manager) (c : Closing) → (confirm_with m c).panel_hidden ≡ m.panel_hidden
unfolding confirm_with
confirm-panel m c = ground arith

answered-panel : (m : Manager) (a : Answer) → (install_answered m a).panel_hidden ≡ m.panel_hidden
unfolding install_answered show_results
answered-panel m (no_answer s) = refl
answered-panel m (body true none err) = refl
answered-panel m (body true (some d) err) = refl
answered-panel m (body false d err) = refl

install-panel :
    (m : Manager) (missing : Str) (apks : List Str) (o : Option (List Str)) (c : Closing)
    (a : Answer)
    → (install_on m missing apks o c a).0.panel_hidden ≡ m.panel_hidden
unfolding install_on
install-panel m missing apks none c a = refl
install-panel m missing apks (some udids) confirm_install a =
    answered-panel (note (confirm_with m confirm_install) (installing apks udids)) a
    ∙ confirm-panel m confirm_install
install-panel m missing apks (some udids) cancel_install a = confirm-panel m cancel_install
install-panel m missing apks (some udids) close_button a = confirm-panel m close_button
install-panel m missing apks (some udids) backdrop a = confirm-panel m backdrop

install-request :
    (m : Manager) (missing : Str) (apks : List Str) (o : Option (List Str)) (c : Closing)
    (a : Answer) (ids udids : List Str)
    → (install_on m missing apks o c a).1 ≡ some (ids, udids)
    → (ids ≡ apks) × (c ≡ confirm_install) × (o ≡ some udids)
unfolding install_on
install-request m missing apks none c a ids udids h = absurd (ground (arith, h))
install-request m missing apks (some l) confirm_install a ids udids h =
    let e = some-injective (apks, l) (ids, udids) h in
    (sym (ap (λ p. p.0) e), refl, ap some (ap (λ p. p.1) e))
install-request m missing apks (some l) cancel_install a ids udids h = absurd (ground (arith, h))
install-request m missing apks (some l) close_button a ids udids h = absurd (ground (arith, h))
install-request m missing apks (some l) backdrop a ids udids h = absurd (ground (arith, h))

-- A request to install is made only after it was confirmed, for exactly the devices of the list that are
-- online and whose slot is selected, in the order of the list, and names only files of the list that are
-- packages; the panel of the file manager is then shown or hidden as before.
pub handle_batch_install-request :
    (m : Manager) (slots : List Str) (devices : Option (List ListDevice)) (c : Closing) (a : Answer)
    (ids udids : List Str)
    → (handle_batch_install m slots devices c a).1 ≡ some (ids, udids)
    → All (λ id. names_apk m.files.file_list id ≡ true) ids
      × (udids ≡ in_reply slots devices)
      × (c ≡ confirm_install)
      × ((handle_batch_install m slots devices c a).0.panel_hidden ≡ m.panel_hidden)
unfolding handle_batch_install selected_apks
handle_batch_install-request m slots devices c a ids udids h =
    let apks = selected_apks m.files in
    let missing = missing_devices slots (codes "请先选择要安装的Android设备") in
    let done = install_on m missing apks (get_selected_android_devices slots devices) c a in
    let by = λ (b : Bool). if b then (note m (codes "请选择要安装的APK文件"), none) else done in
    elim (Bool-cases (length apks == 0)) [
      | inl e ↦ absurd (none-some (ids, udids) (ap (λ b. (by b).1) (sym e) ∙ h))
      | inr e ↦
          let n =
            install-request m missing apks (get_selected_android_devices slots devices) c a ids
              udids (ap (λ b. (by b).1) (sym e) ∙ h) in
          (
            rw n.0 (filter_ids-All (names_apk m.files.file_list) m.files.selected),
            get_selected_android_devices-online slots devices udids n.2,
            n.1,
            ap (λ b. (by b).0.panel_hidden) e
                ∙ install-panel m missing apks (get_selected_android_devices slots devices) c a,
          )
    ]

push-lem :
    (m : Manager) (missing : Str) (o : Option (List Str)) (ids udids : List Str)
    → (push_to m missing o).1 ≡ some (ids, udids)
    → (ids ≡ m.files.selected) × ((push_to m missing o).0.files.selected ≡ [])
unfolding push_to clear_selection render_file_list
push-lem m missing none ids udids h = absurd (none-some (ids, udids) h)
push-lem m missing (some l) ids udids h =
    (sym (ap (λ p. p.0) (some-injective (m.files.selected, l) (ids, udids) h)), refl)

-- The form that sends files is shown for the whole selection, which is empty from then on, also when the
-- form is dismissed.
handle_batch_push-selection :
    (m : Manager) (slots : List Str) (devices : Option (List ListDevice)) (ids udids : List Str)
    → (handle_batch_push m slots devices).1 ≡ some (ids, udids)
    → (ids ≡ m.files.selected) × ((handle_batch_push m slots devices).0.files.selected ≡ [])
unfolding handle_batch_push
handle_batch_push-selection m slots devices ids udids h =
    let missing = missing_devices slots (codes "请先选择要发送的目标设备") in
    let done = push_to m missing (get_selected_android_devices slots devices) in
    let by = λ (b : Bool). if b then (note m (codes "请选择要发送的文件"), none) else done in
    elim (Bool-cases (length m.files.selected == 0)) [
      | inl e ↦ absurd (none-some (ids, udids) (ap (λ b. (by b).1) (sym e) ∙ h))
      | inr e ↦
          let n =
            push-lem m missing (get_selected_android_devices slots devices) ids udids
              (ap (λ b. (by b).1) (sym e) ∙ h) in
          (n.0, ap (λ b. (by b).0.files.selected) e ∙ n.1)
    ]
