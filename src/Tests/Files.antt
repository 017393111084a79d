-- ===== src/Tests/Files.antt =====
-- The file manager at concrete inputs.
use ms_robot.Files.Batch.Results.{show_batch_operation_result_dialog-normalize, all_results}
use ms_robot.Files.Batch.{
  object, list, null, normalize_batch_data, Item, echo_text, show_batch_operation_result_dialog,
}
use mathlib.Core.List.{append-nil, append_assoc}
use ms_robot.Base.Int.{pos}
use ms_robot.Files.Chunks.Whole.{calculate_md5-eq-md5}
use ms_robot.Files.Chunks.{
  calculate_md5_by, calculate_md5, Spark, IsHash, load_next_chunk, resolved, append_all, join,
}
use ms_robot.Files.Push.Targets.{dir_of, push_body-on_edit}
use ms_robot.Files.Push.{Form, trim, push_body, on_edit, apply_global, download_dir, edit_device}
use ms_robot.Files.Batch.{ListDevice}
use ms_robot.Base.Maps.{get, has}
use ms_robot.Files.{FileItem, Files}
use ms_robot.Base.{
  refl, List, codes, Str, truthy, [], ℕ, ◌∷◌, some, ◌≡◌, true, or_else, ◌++◌, sym, ◌∙◌, none, false,
  if◌then◌else◌, length, ◌+◌, ◌==◌, map,
}

-- A hash for tests: the bytes themselves.
abbrev pub plain_spark : Spark
plain_spark = record { State = List ℕ; fresh = []; append = λ s part. s ++ part; end_ = λ s. s }

append_all-join :
    (s : List ℕ) (parts : List (List ℕ)) → append_all plain_spark s parts ≡ s ++ join parts
append_all-join s [] = sym (append-nil s)
append_all-join s (part ∷ parts) =
    append_all-join (s ++ part) parts ∙ append_assoc s part (join parts)

plain_spark-IsHash : IsHash plain_spark (λ bytes. bytes)
plain_spark-IsHash = record { end-append_all = λ parts. append_all-join [] parts }

calculate_md5-eq-md5_example :
    calculate_md5 plain_spark true (λ n. true) (1 ∷ 2 ∷ 3 ∷ []) ≡ some (resolved (1 ∷ 2 ∷ 3 ∷ []))
calculate_md5-eq-md5_example =
    calculate_md5-eq-md5 plain_spark (λ bytes. bytes) plain_spark-IsHash (λ n. true)
      (1 ∷ 2 ∷ 3 ∷ []) (λ n. refl)

-- A file of five bytes in chunks of two.
three_chunks :
    calculate_md5_by plain_spark true (λ n. true) (1 ∷ 2 ∷ 3 ∷ 4 ∷ 5 ∷ []) 2
    ≡ some (resolved (1 ∷ 2 ∷ 3 ∷ 4 ∷ 5 ∷ []))
unfolding calculate_md5_by load_next_chunk
three_chunks = refl

abbrev udids : List Str
udids = codes "a" ∷ codes "b" ∷ []

abbrev form : Form
form = record {
  global_path = codes "/tmp";
  device_paths = (codes "a", codes "/x") ∷ (codes "b", codes "/tmp") ∷ [];
  global_field = codes " /tmp ";
  device_fields = (codes "a", codes "/x") ∷ (codes "b", codes "/tmp") ∷ [];
}

field_shown : has form.device_fields (codes "a") ≡ true
unfolding get
field_shown = refl

own_path : truthy (trim (codes " /y")) ≡ true
unfolding trim
own_path = refl

push_body-on_edit_example :
    (dir_of (push_body (on_edit udids form apply_global) udids) (codes "a")
      ≡ or_else (trim form.global_field) download_dir)
    × (dir_of
          (push_body (on_edit udids form (edit_device (codes "a") (codes " /y"))) udids)
          (codes "a")
        ≡ trim (codes " /y"))
push_body-on_edit_example =
    push_body-on_edit form udids (codes "a") (codes "a") (codes " /y") refl field_shown own_path

-- An item that says nothing of itself.
abbrev done_item : Item
done_item = record {
  udid = codes "a";
  file_id = codes "f";
  success = false;
  message = none;
  error = none;
  output = none;
}

show_batch_operation_result_dialog-normalize_example :
    show_batch_operation_result_dialog (normalize_batch_data (object (list (done_item ∷ [])) null))
    ≡ (if length (done_item ∷ []) + length {A = Item} [] == 0
        then none
        else some (record {
          success_count = length (done_item ∷ []);
          fail_count = length {A = Item} [];
          bodies = map echo_text (all_results (done_item ∷ []) []);
        }))
show_batch_operation_result_dialog-normalize_example =
    show_batch_operation_result_dialog-normalize (list (done_item ∷ [])) null (done_item ∷ []) []
      refl refl

abbrev listed : ListDevice
listed = record {
  device = record {
    udid = codes "p";
    name = codes "Phone";
    transport_id = some (pos 3);
    endpoint_id = codes "e";
    status = codes "online";
  };
  serial = codes "q";
}

abbrev apk : FileItem
apk = record { id = codes "1"; name = codes "a.apk"; extension = codes ".apk"; file_type = [] }

abbrev files : Files
files = record { file_list = apk ∷ []; selected = codes "1" ∷ []; boxes = (codes "1", true) ∷ [] }
