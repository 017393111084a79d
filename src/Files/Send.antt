-- ===== src/Files/Send.antt =====
-- The buttons that install packages and send files (assets/web/static/js/files.js): `handleBatchInstall`
-- with its confirmation, and `handleBatchPush`.
pub mod Request
use ms_robot.Files.Batch.{
  ListDevice, BatchData, Item, normalize_batch_data, get_selected_android_devices,
}
use ms_robot.Identity.{decimal}
use ms_robot.Files.{Files, render_file_list, selected_apks}
use ms_robot.Base.{
  none, some, true, false, refl, inl, inr, [], ◌∷◌, zero, suc, arith, Str, Option, not, Bool,
  if◌then◌else◌, List, codes, ◌++◌, ◌&&◌, or_else, length, ◌==◌,
}
use ms_robot.Files.Upload.{ErrorField, message_of}

-- How the confirmation is closed: by its button, by one of the buttons that cancel, or by a click beside.
pub data Closing : Type 0 where
  confirm_install cancel_install close_button backdrop : Closing

abbrev is_confirmed : Closing → Bool
is_confirmed confirm_install = true
is_confirmed _ = false

-- The answer to the request: the body's `success`, `data` and `error`, or no answer.
pub data Answer : Type 0 where
  body : Bool → Option BatchData → ErrorField → Answer
  no_answer : Str → Answer

-- The page of the file manager, and what is shown last: a notice, or the items of a result.
pub record Manager : Type 0 where
  pub files : Files
  pub panel_hidden : Bool
  pub notice : Option Str
  pub results : List Item

-- A request's files and devices.
abbrev pub Request : Type 0
Request = Option (List Str × List Str)

abbrev note : Manager → Str → Manager
note m message = record m { notice = some message }

clear_selection : Files → Files
clear_selection files = render_file_list (record files { selected = [] })

show_results : Manager → Option BatchData → ErrorField → Manager
show_results m none err = note m (codes "安装失败: " ++ or_else (message_of err) (codes "未知错误"))
show_results m (some given) err = record m { results = normalize_batch_data given }

-- After an answer the selection is emptied, whether it reports a success or not.
install_answered : Manager → Answer → Manager
unfolding clear_selection show_results
install_answered m (body success given err) =
    let shown = show_results m (if success then given else none) err in
    record shown { files = clear_selection shown.files }
install_answered m (no_answer message) = note m (codes "安装失败: " ++ message)

-- While the confirmation is shown, the panel of the file manager is hidden; every way to close it shows
-- the panel again if it was shown.
confirm_with : Manager → Closing → Manager
confirm_with m closing =
    let was_visible = not m.panel_hidden in
    let hidden = if was_visible then record m { panel_hidden = true } else m in
    let cancelled =
      if not (is_confirmed closing) && was_visible
      then record hidden { panel_hidden = false }
      else hidden in
    if was_visible then record cancelled { panel_hidden = false } else cancelled

-- `🚀 正在安装 n 个 APK 到 n 台设备...`
installing : List Str → List Str → Str
installing apks udids =
    0xD83D
    ∷ 0xDE80
    ∷ (codes " 正在安装 "
        ++ (decimal (length apks)
            ++ (codes " 个 APK 到 " ++ (decimal (length udids) ++ codes " 台设备..."))))

-- The note of `getSelectedAndroidDevices`.
missing_devices : List Str → Str → Str
missing_devices slots error_object =
    if length slots == 0 then error_object else codes "选中的设备中没有可用的Android设备"

install_on : Manager → Str → List Str → Option (List Str) → Closing → Answer → Manager × Request
unfolding confirm_with install_answered installing
install_on m missing apks none closing answer = (note m missing, none)
install_on m missing apks (some udids) closing answer =
    if is_confirmed closing
    then (
      install_answered (note (confirm_with m closing) (installing apks udids)) answer,
      some (apks, udids),
    )
    else (confirm_with m closing, none)

-- `handleBatchInstall`, with the selected cards and the list of devices.
unfoldable pub handle_batch_install :
    Manager → List Str → Option (List ListDevice) → Closing → Answer → Manager × Request
unfolding install_on missing_devices
handle_batch_install m slots devices closing answer =
    let apks = selected_apks m.files in
    if length apks == 0
    then (note m (codes "请选择要安装的APK文件"), none)
    else install_on m (missing_devices slots (codes "请先选择要安装的Android设备")) apks
        (get_selected_android_devices slots devices) closing answer

-- `handleBatchPush`: the form is shown with the files and the devices, and the selection is emptied
-- before it is answered.
push_to : Manager → Str → Option (List Str) → Manager × Request
unfolding clear_selection
push_to m missing none = (note m missing, none)
push_to m missing (some udids) =
    (record m { files = clear_selection m.files }, some (m.files.selected, udids))

pub handle_batch_push : Manager → List Str → Option (List ListDevice) → Manager × Request
unfolding push_to missing_devices
handle_batch_push m slots devices =
    if length m.files.selected == 0
    then (note m (codes "请选择要发送的文件"), none)
    else push_to m (missing_devices slots (codes "请先选择要发送的目标设备"))
        (get_selected_android_devices slots devices)
