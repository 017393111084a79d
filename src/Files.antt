-- ===== src/Files.antt =====
-- The file manager (assets/web/static/js/files.js): its list and selection, the hash of an upload, the
-- form that sends files to devices, and the results of such a batch.
pub mod Chunks
pub mod Push
pub mod Batch
pub mod Choice
pub mod Upload
pub mod Send
use ms_robot.Base.{
  Str, ℕ, Option, List, ltb, Bool, some, true, str_eq, length, ◌∷◌, [], none, false, codes,
  if◌then◌else◌, ◌||◌, ◌++◌, suc, not, ◌&&◌, ◌==◌, leb, ◌/◌, ◌-◌, ◌+◌, refl, inl, inr, zero, arith,
}

-- What the file manager uses of an item of `/api/files/list`.
pub record FileItem : Type 0 where
  pub id : Str
  pub name : Str
  pub extension : Str
  pub file_type : Str

-- `fileList`, `selectedFiles` (ids in order of selection) and the box of each file of the document.
pub record Files : Type 0 where
  pub file_list : List FileItem
  pub selected : List Str
  pub boxes : List (Str × Bool)

-- `fileList.find(f => f.id === fileId)`
unfoldable pub find_file : List FileItem → Str → Option FileItem
find_file [] file_id = none
find_file (f ∷ fs) file_id = if str_eq f.id file_id then some f else find_file fs file_id

abbrev pub is_apk : FileItem → Bool
is_apk f =
    str_eq f.extension (codes ".apk")
    || str_eq f.file_type (codes "application/vnd.android.package-archive")

abbrev pub names_apk : List FileItem → Str → Bool
names_apk fs file_id = elim (find_file fs file_id) [ none ↦ false | some f ↦ is_apk f ]

-- `selectedFiles.has`
abbrev pub has_file : List Str → Str → Bool
has_file [] id = false
has_file (j ∷ js) id = str_eq j id || has_file js id

-- `selectedFiles.add` and `selectedFiles.delete`
unfoldable pub add_file : List Str → Str → List Str
add_file selected id = if has_file selected id then selected else selected ++ id ∷ []

unfoldable pub delete_file : List Str → Str → List Str
delete_file [] id = []
delete_file (j ∷ js) id = let rest = delete_file js id in if str_eq j id then rest else j ∷ rest

-- The box of a file changes.
unfoldable pub set_file : List Str → Str → Bool → List Str
set_file selected id true = add_file selected id
set_file selected id false = delete_file selected id

abbrev tick : Str → Bool → List (Str × Bool) → List (Str × Bool)
tick id checked [] = []
tick id checked ((j, b) ∷ l) = (j, if str_eq j id then checked else b) ∷ tick id checked l

unfoldable pub on_file_change : Files → Str → Bool → Files
on_file_change files id checked = record files {
  selected = set_file files.selected id checked;
  boxes = tick id checked files.boxes;
}

-- `renderFileList`: a box for each file, ticked where the file is selected.
abbrev boxes_of : List FileItem → List Str → List (Str × Bool)
boxes_of [] selected = []
boxes_of (f ∷ fs) selected = (f.id, has_file selected f.id) ∷ boxes_of fs selected

unfoldable pub render_file_list : Files → Files
render_file_list files = record files { boxes = boxes_of files.file_list files.selected }

-- `loadFileList`, with the list of an answer that succeeds; without one nothing changes.
unfoldable pub load_file_list : Files → Option (List FileItem) → Files
load_file_list files none = files
load_file_list files (some list) = render_file_list (record files { file_list = list })

-- The box for all files.
abbrev pub set_all : List Str → List (Str × Bool) → Bool → List Str
set_all selected [] checked = selected
set_all selected ((id, b) ∷ l) checked = set_all (set_file selected id checked) l checked

abbrev tick_all : List (Str × Bool) → Bool → List (Str × Bool)
tick_all [] checked = []
tick_all ((id, b) ∷ l) checked = (id, checked) ∷ tick_all l checked

unfoldable pub select_all_files : Files → Bool → Files
select_all_files files checked = record files {
  selected = set_all files.selected files.boxes checked;
  boxes = tick_all files.boxes checked;
}

-- What `updateBatchButtons` shows: the text of the first button and whether it, the buttons to install
-- and to send are disabled, the box for all files (ticked, undecided) and the counts of its label.
pub data DeleteText : Type 0 where
  delete_text clean_text : DeleteText

pub record Buttons : Type 0 where
  pub delete_label : DeleteText
  pub delete_disabled : Bool
  pub install_disabled : Bool
  pub push_disabled : Bool
  pub all_checked : Bool
  pub all_indeterminate : Bool
  pub checked_count : ℕ
  pub total_count : ℕ

abbrev pub filter_ids : (Str → Bool) → List Str → List Str
filter_ids p [] = []
filter_ids p (x ∷ xs) = let rest = filter_ids p xs in if p x then x ∷ rest else rest

abbrev pub checked_boxes : List (Str × Bool) → ℕ
checked_boxes [] = 0
checked_boxes ((id, b) ∷ l) = (if b then 1 else 0) + checked_boxes l

-- `selectedAPKs`
unfoldable pub selected_apks : Files → List Str
selected_apks files = filter_ids (names_apk files.file_list) files.selected

unfoldable pub update_batch_buttons : Files → Buttons
unfolding selected_apks
update_batch_buttons files =
    let some_selected = ltb 0 (length files.selected) in
    let checked = checked_boxes files.boxes in
    let total = length files.boxes in
    record {
      delete_label =
          if some_selected
          then delete_text
          else if ltb 0 (length files.file_list)
          then clean_text
          else delete_text;
      delete_disabled = not (some_selected || ltb 0 (length files.file_list));
      install_disabled =
          length files.selected == 0 || not (length (selected_apks files) == length files.selected);
      push_disabled = length files.selected == 0;
      all_checked = not (total == 0) && checked == total;
      all_indeterminate = not (total == 0) && not (checked == total) && ltb 0 checked;
      checked_count = checked;
      total_count = total;
    }

-- What an answer of the back end comes to: no answer (or one that cannot be read), one without
-- success, or the numbers of files done and failed.
pub data BatchReply : Type 0 where
  no_reply unsuccessful : BatchReply
  counted : ℕ → ℕ → BatchReply

-- The kinds of notes that the file manager shows.
pub data Note : Type 0 where
  all_done none_done some_failed nothing_found no_success request_failed : Note

-- `handleBatchDelete`, once the user has agreed: the note, the selection, and whether the list is
-- loaded again. The request names the selected files.
unfoldable pub handle_batch_delete : Files → BatchReply → Note × Files × Bool
handle_batch_delete files no_reply = (request_failed, files, false)
handle_batch_delete files unsuccessful = (no_success, files, false)
handle_batch_delete files (counted deleted failed) = (
  if failed == 0 then all_done else if deleted == 0 then none_done else some_failed,
  record files { selected = [] },
  true,
)

-- `runCleanup`: no request for a time before the epoch.
unfoldable pub run_cleanup : Files → BatchReply → Note × Files × Bool
run_cleanup files no_reply = (request_failed, files, false)
run_cleanup files unsuccessful = (no_success, files, false)
run_cleanup files (counted deleted failed) = (
  if ltb 0 deleted
      then (if ltb 0 failed then some_failed else all_done)
      else if ltb 0 failed
      then none_done
      else nothing_found,
  record files { selected = [] },
  true,
)

-- The confirmation of `openCleanupDialog`: the time before which files are deleted, from the clock in
-- milliseconds and the number of seconds; none where no request is made.
unfoldable pub cleanup_time : ℕ → ℕ → Option ℕ
cleanup_time now_ms sec =
    if ltb 0 sec && leb sec (now_ms / 1000) then some (now_ms / 1000 - sec) else none
