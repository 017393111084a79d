-- ===== src/Files/Push.antt =====
-- The form that sends files to devices (assets/web/static/js/files.js): `showBatchFilePushModal` and
-- the request that its button makes.
pub mod Targets
use ms_robot.Base.Maps.{Map, get, put, has}
use ms_robot.Base.{
  List, ℕ, Option, Str, codes, or_else, ◌∷◌, [], some, none, Bool, if◌then◌else◌, leb, str_eq, ◌&&◌,
  not, truthy, ◌||◌, ◌==◌,
}

-- JavaScript's white space, as far as it has one code unit, and `s.trim()`.
abbrev is_white : ℕ → Bool
is_white c =
    leb 9 c && leb c 13
    || c == 32
    || c == 0xA0
    || c == 0x1680
    || leb 0x2000 c && leb c 0x200A
    || c == 0x2028
    || c == 0x2029
    || c == 0x202F
    || c == 0x205F
    || c == 0x3000
    || c == 0xFEFF

abbrev trim_end : Str → Str
trim_end [] = []
trim_end (c ∷ s) = let rest = trim_end s in if not (truthy rest) && is_white c then [] else c ∷ rest

abbrev trim_start : Str → Str
trim_start [] = []
trim_start (c ∷ s) = let rest = trim_start s in if is_white c then rest else c ∷ s

unfoldable pub trim : Str → Str
trim s = trim_end (trim_start s)

abbrev pub download_dir : Str
download_dir = codes "/sdcard/Download"

-- `globalPath` and `devicePaths`, with what the fields of the form show: the one for all devices, and
-- each device's own.
pub record Form : Type 0 where
  pub global_path : Str
  pub device_paths : Map Str
  pub global_field : Str
  pub device_fields : Map Str

abbrev pub put_each : Map Str → List Str → Str → Map Str
put_each m [] v = m
put_each m (udid ∷ udids) v = put_each (put m udid v) udids v

-- The form as it opens, with `globalPushPath`.
unfoldable pub open_form : Str → List Str → Form
open_form global_push_path udids =
    let path = or_else global_push_path download_dir in
    record {
      global_path = path;
      device_paths = put_each [] udids path;
      global_field = path;
      device_fields = put_each [] udids path;
    }

-- What the user does: edits the field for all devices, applies it to them, or edits a device's field.
pub data Edit : Type 0 where
  edit_global : Str → Edit
  apply_global : Edit
  edit_device : Str → Str → Edit

unfoldable pub on_edit : List Str → Form → Edit → Form
unfolding trim
on_edit udids form (edit_global v) = record form { global_path = trim v; global_field = v }
on_edit udids form apply_global =
    let path = or_else (trim form.global_field) download_dir in
    record form {
      global_path = path;
      device_paths = put_each form.device_paths udids path;
      device_fields = put_each form.device_fields udids path;
    }
on_edit udids form (edit_device udid v) =
    if has form.device_fields udid
    then record form {
      device_paths = put form.device_paths udid (trim v);
      device_fields = put form.device_fields udid v;
    }
    else form

unfoldable pub edit_all : List Str → Form → List Edit → Form
unfolding on_edit
edit_all udids form [] = form
edit_all udids form (e ∷ es) = edit_all udids (on_edit udids form e) es

-- The body of the request.
pub record PushBody : Type 0 where
  pub target_dir : Str
  pub device_target_dirs : Map Str

abbrev pub text_of : Option Str → Str
text_of none = []
text_of (some s) = s

-- The directories of those devices that have another one than the rest.
unfoldable pub other_dirs : Form → Str → List Str → Map Str → Map Str
other_dirs form target_dir [] m = m
other_dirs form target_dir (udid ∷ udids) m =
    let p = or_else (text_of (get form.device_paths udid)) target_dir in
    other_dirs form target_dir udids (if str_eq p target_dir then m else put m udid p)

-- The button that confirms.
unfoldable pub push_body : Form → List Str → PushBody
unfolding other_dirs
push_body form udids =
    let target_dir = or_else form.global_path download_dir in
    record { target_dir = target_dir; device_target_dirs = other_dirs form target_dir udids [] }
