-- ===== src/Tests/Transfer.antt =====
-- Uploads and installs at concrete inputs.
use ms_robot.Base.Int.{pos}
use ms_robot.Identity.{decimal}
use ms_robot.Files.Batch.Devices.{in_reply}
use ms_robot.Files.Batch.{
  ListDevice, get_selected_android_devices, to_api_udid, device_slot_id, get_android_devices,
}
use ms_robot.Base.{none, some, true, false, refl, [], ◌∷◌, codes, List, Str, All, ◌≡◌, length, ◌+◌}
use ms_robot.Files.{FileItem, find_file, selected_apks, names_apk}
use ms_robot.Files.Upload.{LocalFile, Reply, Uploads, ErrorField, handle_files}
use ms_robot.Files.Upload.Each.{handle_files-settled, successes}
use ms_robot.Files.Send.{Manager, Closing, Answer, handle_batch_install}
use ms_robot.Files.Send.Request.{handle_batch_install-request}
use ms_robot.Tests.Files.{plain_spark}

abbrev readable_file : LocalFile
readable_file = record { name = codes "a.apk"; bytes = 1 ∷ 2 ∷ []; readable = λ n. true }

abbrev broken_file : LocalFile
broken_file = record { name = codes "b.txt"; bytes = 3 ∷ []; readable = λ n. false }

abbrev local_files : List (LocalFile × Reply)
local_files =
    (broken_file, Reply.aborted)
    ∷ (readable_file, Reply.loaded 200 (some (true, ErrorField.no_message)))
    ∷ []

abbrev no_uploads : Uploads
no_uploads = record { notices = []; reloads = 0 }

handle_files-settled_example :
    ((handle_files plain_spark true no_uploads local_files).1 ≡ true)
    × (length (handle_files plain_spark true no_uploads local_files).0.notices ≡ 2)
    × ((handle_files plain_spark true no_uploads local_files).0.reloads + 0
        ≡ 0 + successes (handle_files plain_spark true no_uploads local_files).0.notices)
handle_files-settled_example = handle_files-settled plain_spark true no_uploads local_files

abbrev apk_item : FileItem
apk_item = record { id = codes "1"; name = codes "a"; extension = codes ".apk"; file_type = [] }

abbrev manager : Manager
manager = record {
  files = record {
    file_list = apk_item ∷ [];
    selected = codes "1" ∷ [];
    boxes = (codes "1", true) ∷ [];
  };
  panel_hidden = false;
  notice = none;
  results = [];
}

abbrev phone : Str → Str → ListDevice
phone udid status = record {
  device = record {
    udid = udid;
    name = codes "Phone";
    transport_id = some (pos 3);
    endpoint_id = codes "e";
    status = status;
  };
  serial = [];
}

-- Two phones that are selected, the second one is not online.
abbrev phones : List ListDevice
phones = phone (codes "p") (codes "online") ∷ phone (codes "q") (codes "offline") ∷ []

abbrev slots : List Str
slots = codes "p@e" ∷ codes "q@e" ∷ []

abbrev lost_answer : Answer
lost_answer = Answer.no_answer (codes "lost")

handle_batch_install-request_example :
    All (λ id. names_apk manager.files.file_list id ≡ true) (codes "1" ∷ [])
    × (codes "p:3@e" ∷ [] ≡ in_reply slots (some phones))
    × (Closing.confirm_install ≡ Closing.confirm_install)
    × ((handle_batch_install manager slots
          (some phones)
          Closing.confirm_install
          lost_answer).0.panel_hidden
        ≡ false)
unfolding find_file selected_apks get_selected_android_devices to_api_udid device_slot_id
    get_android_devices decimal handle_batch_install
handle_batch_install-request_example =
    handle_batch_install-request manager slots (some phones) Closing.confirm_install lost_answer
      (codes "1" ∷ []) (codes "p:3@e" ∷ []) refl
