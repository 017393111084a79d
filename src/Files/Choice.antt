-- ===== src/Files/Choice.antt =====
-- The selection of files and the buttons that depend on it.
use ms_robot.Files.{
  set_file, update_batch_buttons, add_file, delete_file, select_all_files, load_file_list, FileItem,
  render_file_list, selected_apks, Files, find_file, has_file, filter_ids, names_apk, checked_boxes,
  set_all, tick_all,
}
use ms_robot.Base.{
  refl, List, Str, length, ◌++◌, ◌≤◌, ◌≡◌, ◌==◌, Bool, ◌∷◌, not, true, if◌then◌else◌, false, [],
  none, arith, str_eq_iff, str_eq, ◌&&◌, ◌||◌, some, ap, suc,
}

abbrev pub in_boxes : List (Str × Bool) → Str → Bool
in_boxes [] id = false
in_boxes ((j, b) ∷ l) id = str_eq j id || in_boxes l id

-- Every selected id names an APK of the list.
abbrev pub all_apks : List FileItem → List Str → Bool
all_apks fs [] = true
all_apks fs (id ∷ ids) = names_apk fs id && all_apks fs ids

has_file-append :
    (selected : List Str) (id j : Str)
    → has_file (selected ++ id ∷ []) j ≡ (has_file selected j || str_eq id j)
has_file-append [] id j = ground arith
has_file-append (k ∷ selected) id j = ground (arith, has_file-append selected id j)

has_file-add :
    (selected : List Str) (id j : Str)
    → has_file (add_file selected id) j ≡ (if str_eq id j then true else has_file selected j)
unfolding add_file
has_file-add selected id j = ground (arith, has_file-append selected id j, str_eq_iff id j)

has_file-delete :
    (selected : List Str) (id j : Str)
    → has_file (delete_file selected id) j ≡ (if str_eq id j then false else has_file selected j)
unfolding delete_file
has_file-delete [] id j = ground arith
has_file-delete (k ∷ selected) id j =
    ground (arith, has_file-delete selected id j, str_eq_iff k id, str_eq_iff id j, str_eq_iff k j)

has_file-set :
    (selected : List Str) (id j : Str) (checked : Bool)
    → has_file (set_file selected id checked) j
      ≡ (if str_eq id j then checked else has_file selected j)
unfolding set_file
has_file-set selected id j true = has_file-add selected id j
has_file-set selected id j false = has_file-delete selected id j

has_file-set_all :
    (selected : List Str) (l : List (Str × Bool)) (checked : Bool) (j : Str)
    → has_file (set_all selected l checked) j
      ≡ (if in_boxes l j then checked else has_file selected j)
has_file-set_all selected [] checked j = refl
has_file-set_all selected ((id, b) ∷ l) checked j = ground (
  arith,
  has_file-set_all (set_file selected id checked) l checked j,
  has_file-set selected id j checked,
)

checked-tick_all :
    (l : List (Str × Bool)) → checked_boxes (tick_all l true) ≡ length (tick_all l true)
checked-tick_all [] = refl
checked-tick_all ((id, b) ∷ l) = ground (arith, checked-tick_all l)

length-tick_all : (l : List (Str × Bool)) (checked : Bool) → length (tick_all l checked) ≡ length l
length-tick_all [] checked = refl
length-tick_all ((id, b) ∷ l) checked = ap suc (length-tick_all l checked)

ticked :
    (files : Files) (checked : Bool)
    → not checked
        || length files.boxes == 0
        || (update_batch_buttons (select_all_files files checked)).all_checked
      ≡ true
unfolding select_all_files update_batch_buttons
ticked files false = refl
ticked files true = ground (arith, checked-tick_all files.boxes, length-tick_all files.boxes true)

-- The box for all files selects, or takes out of the selection, exactly the files that are shown: a
-- file shown is selected afterwards if and only if the box is ticked, every other id stays as it was;
-- and where files are shown and the box is ticked, it stays ticked.
select_all_files-has_file :
    (files : Files) (checked : Bool) (id : Str)
    → (has_file (select_all_files files checked).selected id
        ≡ (if in_boxes files.boxes id then checked else has_file files.selected id))
      × (not checked
            || length files.boxes == 0
            || (update_batch_buttons (select_all_files files checked)).all_checked
          ≡ true)
unfolding select_all_files
select_all_files-has_file files checked id =
    (has_file-set_all files.selected files.boxes checked id, ticked files checked)

filter-all_apks :
    (fs : List FileItem) (ids : List Str) → length (filter_ids (names_apk fs) ids) ≤ length ids
filter-all_apks fs [] = omega arith
filter-all_apks fs (id ∷ ids) = ground (arith, filter-all_apks fs ids)

filter-length :
    (fs : List FileItem) (ids : List Str)
    → (length (filter_ids (names_apk fs) ids) == length ids) ≡ all_apks fs ids
filter-length fs [] = refl
filter-length fs (id ∷ ids) = ground (arith, filter-length fs ids, filter-all_apks fs ids)

-- The button that installs is enabled exactly if something is selected and every selected id names an
-- APK of the list.
update_batch_buttons-install :
    (files : Files)
    → (update_batch_buttons files).install_disabled
      ≡ not (not (length files.selected == 0) && all_apks files.file_list files.selected)
unfolding update_batch_buttons selected_apks
update_batch_buttons-install files = ground (arith, filter-length files.file_list files.selected)

absent-all_apks :
    (fs : List FileItem) (ids : List Str) (id : Str)
    → find_file fs id ≡ none
    → has_file ids id ≡ true
    → all_apks fs ids ≡ false
absent-all_apks fs [] id e h = absurd (ground arith)
absent-all_apks fs (j ∷ ids) id e h = ground (arith, absent-all_apks fs ids id e, str_eq_iff j id)

-- An id that is selected stays so when the list is loaded again without it: nothing can be installed,
-- whatever else is selected.
load_file_list-absent :
    (files : Files) (list : List FileItem) (id : Str)
    → has_file files.selected id ≡ true
    → find_file list id ≡ none
    → ((load_file_list files (some list)).selected ≡ files.selected)
      × ((update_batch_buttons (load_file_list files (some list))).install_disabled ≡ true)
unfolding load_file_list render_file_list
load_file_list-absent files list id h e = (
  refl,
  rw
      (
        update_batch_buttons-install (load_file_list files (some list)),
        absent-all_apks list files.selected id e h,
      )
      (ground arith),
)
