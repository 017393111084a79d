-- ===== src/Files/Batch.antt =====
-- The results of a batch over devices and files (assets/web/static/js/files.js), and the devices that
-- it goes to.
pub mod Devices
pub mod Results
use ms_robot.Control.Send.{includes}
use ms_robot.Files.Push.{trim}
use ms_robot.Base.Int.{ℤ, pos, negsuc}
use ms_robot.Identity.{Device, colon, decimal}
use ms_robot.Base.{
  List, Str, Option, true, ℕ, false, some, or_else, length, ◌∷◌, ◌++◌, none, [], Bool,
  if◌then◌else◌, map, ◌-◌, truthy, codes, ltb, str_eq, take, ◌==◌, ◌+◌, ◌||◌, suc, refl, inl, inr,
  zero, arith,
}

-- An item of the results; a missing text is none.
pub record Item : Type 0 where
  pub udid : Str
  pub file_id : Str
  pub success : Bool
  pub message : Option Str
  pub error : Option Str
  pub output : Option Str

-- A field of the data: a list, null or missing, or something else.
pub data Field : Type 0 where
  list : List Item → Field
  null other : Field

-- The data: an array, an object with `succeeded` and `failed`, or something else.
pub data BatchData : Type 0 where
  array : List Item → BatchData
  object : Field → Field → BatchData
  no_data : BatchData

abbrev pub field_items : Field → Option (List Item)
field_items (list items) = some items
field_items null = some []
field_items other = none

abbrev pub as_done : Item → Item
as_done r = record r { success = true }

-- The error is the message, where it has a text.
abbrev pub as_failed : Item → Item
as_failed r = record r {
  success = false;
  message = elim r.error [ none ↦ r.message | some e ↦ if truthy e then some e else r.message ];
}

abbrev joined : Option (List Item) → Option (List Item) → List Item
joined (some succ) (some fail) = map as_done succ ++ map as_failed fail
joined _ _ = []

unfoldable pub normalize_batch_data : BatchData → List Item
normalize_batch_data (array items) = items
normalize_batch_data (object succeeded failed) = joined (field_items succeeded) (field_items failed)
normalize_batch_data no_data = []

abbrev pub count_done : List Item → ℕ
count_done [] = 0
count_done (r ∷ rs) = (if r.success then 1 else 0) + count_done rs

-- `r.output != null && String(r.output).trim() !== ''`
abbrev pub non_blank : Option Str → Str
non_blank none = []
non_blank (some s) = if truthy (trim s) then s else []

-- `echoText`
unfoldable pub echo_text : Item → Str
echo_text r =
    or_else (non_blank r.output)
      (or_else (non_blank r.message) (if r.success then codes "(无输出)" else codes "未知错误"))

-- What the dialog of the results shows: the counts, and the text of each item.
pub record ResultDialog : Type 0 where
  pub success_count : ℕ
  pub fail_count : ℕ
  pub bodies : List Str

-- `showBatchOperationResultDialog`: no dialog without results.
unfoldable pub show_batch_operation_result_dialog : List Item → Option ResultDialog
unfolding echo_text
show_batch_operation_result_dialog results =
    if length results == 0
    then none
    else some (record {
      success_count = count_done results;
      fail_count = length results - count_done results;
      bodies = map echo_text results;
    })

-- `d.transport_id ? ':' + d.transport_id : ''`: every number but 0 counts.
abbrev list_transport : Option ℤ → Str
list_transport none = []
list_transport (some (pos n)) = if n == 0 then [] else colon ∷ decimal n
list_transport (some (negsuc n)) = colon ∷ b'-' ∷ decimal (suc n)

abbrev at_endpoint : Str → Str
at_endpoint eid = if truthy eid then b'@' ∷ eid else []

-- An item of the list of devices: a device, and its `serial`, which is empty where it has none.
pub record ListDevice : Type 0 where
  pub device : Device
  pub serial : Str

-- `toApiUdid` and `deviceSlotIdFromListItem`
unfoldable pub to_api_udid : ListDevice → Str
to_api_udid d =
    or_else d.device.udid d.serial
    ++ (list_transport d.device.transport_id ++ at_endpoint d.device.endpoint_id)

unfoldable pub device_slot_id : ListDevice → Str
device_slot_id d = or_else d.device.udid d.serial ++ at_endpoint d.device.endpoint_id

-- `getAndroidDevices`: the devices that are online, as pairs of slot id and API udid; none when the
-- request fails.
unfoldable pub get_android_devices : Option (List ListDevice) → List (Str × Str)
unfolding to_api_udid device_slot_id
get_android_devices none = []
get_android_devices (some []) = []
get_android_devices (some (d ∷ ds)) =
    let rest = get_android_devices (some ds) in
    if str_eq d.device.status (codes "online")
    then (device_slot_id d, to_api_udid d) ∷ rest
    else rest

abbrev chosen : List Str → List (Str × Str) → List Str
chosen slots [] = []
chosen slots ((slot, udid) ∷ l) =
    let rest = chosen slots l in if includes slots slot then udid ∷ rest else rest

-- `getSelectedAndroidDevices`: the API udids of the selected devices, or none with a note.
unfoldable pub get_selected_android_devices :
    List Str → Option (List ListDevice) → Option (List Str)
unfolding get_android_devices
get_selected_android_devices slots reply =
    let udids = chosen slots (get_android_devices reply) in
    if length slots == 0 || length udids == 0 then none else some udids
