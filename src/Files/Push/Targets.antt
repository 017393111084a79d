-- ===== src/Files/Push/Targets.antt =====
-- The directory that each device gets.
use ms_robot.Control.Send.{includes}
use ms_robot.Base.{
  none, some, List, ◌≡◌, if◌then◌else◌, true, or_else, some, arith, ◌&&◌, ◌∷◌, [], refl, str_eq_iff,
  not, str_eq, truthy, ◌∙◌, ap, sym, or_else-truthy, inl, inr, Bool-cases,
}
use ms_robot.Base.Maps.{Map, get, put, get-put, has}
use ms_robot.Files.Push.{
  push_body, other_dirs, PushBody, Form, Str, put_each, text_of, download_dir, on_edit, open_form,
  trim, apply_global, edit_device,
}

-- The directory that a request gives a device: its own, or that of the rest.
abbrev pub dir_of : PushBody → Str → Str
dir_of body udid = elim (get body.device_target_dirs udid) [
  | none ↦ body.target_dir
  | some dir ↦ dir
]

get-put_each :
    (m : Map Str) (udids : List Str) (v j : Str)
    → get (put_each m udids v) j ≡ (if includes udids j then some v else get m j)
get-put_each m [] v j = refl
get-put_each m (udid ∷ udids) v j =
    ground (arith, get-put_each (put m udid v) udids v j, get-put m udid j v)

get-other_dirs :
    (form : Form) (t : Str) (udids : List Str) (m : Map Str) (j : Str)
    → get (other_dirs form t udids m) j ≡ (
        if includes udids j && not (str_eq (or_else (text_of (get form.device_paths j)) t) t)
        then some (or_else (text_of (get form.device_paths j)) t)
        else get m j)
unfolding other_dirs
get-other_dirs form t [] m j = refl
get-other_dirs form t (udid ∷ udids) m j =
    let p = or_else (text_of (get form.device_paths udid)) t in
    ground (
      arith,
      get-other_dirs form t udids (if str_eq p t then m else put m udid p) j,
      get-put m udid j p,
      str_eq_iff udid j,
    )

dir-other_dirs :
    (form : Form) (t : Str) (udids : List Str) (udid : Str)
    → includes udids udid ≡ true
    → (elim (get (other_dirs form t udids []) udid) [ none ↦ t | some dir ↦ dir ])
      ≡ or_else (text_of (get form.device_paths udid)) t
unfolding get
dir-other_dirs form t udids udid h =
    let p = or_else (text_of (get form.device_paths udid)) t in
    ground (arith, get-other_dirs form t udids [] udid, str_eq_iff p t)

none-other_dirs :
    (form : Form) (t : Str) (udids : List Str) (udid : Str)
    → or_else (text_of (get form.device_paths udid)) t ≡ t
    → get (other_dirs form t udids []) udid ≡ none
unfolding get
none-other_dirs form t udids udid same =
    let p = or_else (text_of (get form.device_paths udid)) t in
    ground (arith, get-other_dirs form t udids [] udid, str_eq_iff p t)

-- The request gives each device of the form its own path, or the common one where it has none.
push_body-dir_of :
    (form : Form) (udids : List Str) (udid : Str)
    → includes udids udid ≡ true
    → dir_of (push_body form udids) udid
      ≡ or_else (text_of (get form.device_paths udid)) (or_else form.global_path download_dir)
unfolding push_body get
push_body-dir_of form udids udid h =
    dir-other_dirs form (or_else form.global_path download_dir) udids udid h

-- No device is named that gets the common path.
push_body-none :
    (form : Form) (udids : List Str) (udid : Str)
    → or_else (text_of (get form.device_paths udid)) (or_else form.global_path download_dir)
      ≡ or_else form.global_path download_dir
    → get (push_body form udids).device_target_dirs udid ≡ none
unfolding push_body
push_body-none form udids udid same =
    none-other_dirs form (or_else form.global_path download_dir) udids udid same

-- A path that stands for an empty one is not empty itself.
or_else_twice :
    (path : Str)
    → or_else (or_else path download_dir) (or_else (or_else path download_dir) download_dir)
      ≡ or_else path download_dir
or_else_twice [] = refl
or_else_twice (c ∷ path) = refl

or_else_self :
    (path : Str)
    → or_else (or_else path download_dir) (or_else (or_else path download_dir) download_dir)
      ≡ or_else (or_else path download_dir) download_dir
or_else_self [] = refl
or_else_self (c ∷ path) = refl

put_each-text :
    (m : Map Str) (udids : List Str) (path udid : Str)
    → includes udids udid ≡ true
    → text_of (get (put_each m udids path) udid) ≡ path
put_each-text m udids path udid h = rw (get-put_each m udids path udid, h) refl

-- A form as it opens sends the files of all its devices to the path that is set for all, or to the
-- folder of downloads, and names no device on its own.
push_body-open_form :
    (global_push_path : Str) (udids : List Str) (udid : Str)
    → includes udids udid ≡ true
    → (dir_of (push_body (open_form global_push_path udids) udids) udid
        ≡ or_else global_push_path download_dir)
      × (get (push_body (open_form global_push_path udids) udids).device_target_dirs udid ≡ none)
unfolding open_form
push_body-open_form global_push_path udids udid h =
    let form = open_form global_push_path udids in
    let path = or_else global_push_path download_dir in
    let text = put_each-text [] udids path udid h in
    (
      push_body-dir_of form udids udid h
          ∙ ap (λ p. or_else p (or_else path download_dir)) text
          ∙ or_else_twice global_push_path,
      push_body-none form udids udid
          (ap (λ p. or_else p (or_else path download_dir)) text ∙ or_else_self global_push_path),
    )

on_edit-shown :
    (udids : List Str) (form : Form) (udid v : Str)
    → has form.device_fields udid ≡ true
    → on_edit udids form (edit_device udid v) ≡ record form {
      device_paths = put form.device_paths udid (trim v);
      device_fields = put form.device_fields udid v;
    }
unfolding on_edit
on_edit-shown udids form udid v shown = rw (on_edit, shown) refl

applied :
    (form : Form) (udids : List Str) (udid : Str)
    → includes udids udid ≡ true
    → dir_of (push_body (on_edit udids form apply_global) udids) udid
      ≡ or_else (trim form.global_field) download_dir
unfolding on_edit
applied form udids udid h =
    let path = or_else (trim form.global_field) download_dir in
    push_body-dir_of (on_edit udids form apply_global) udids udid h
    ∙ ap (λ p. or_else p (or_else path download_dir))
        (put_each-text form.device_paths udids path udid h)
    ∙ or_else_twice (trim form.global_field)

-- After the path for all devices is applied, every device of the form gets that path, trimmed, or the
-- folder of downloads where it is blank, whatever the paths were before. After a path that is not
-- blank is written to the field that one device has in the form, that device gets it, trimmed, and every
-- other device of the form gets what it got before.
pub push_body-on_edit :
    (form : Form) (udids : List Str) (udid k v : Str)
    → includes udids k ≡ true
    → has form.device_fields udid ≡ true
    → truthy (trim v) ≡ true
    → (dir_of (push_body (on_edit udids form apply_global) udids) k
        ≡ or_else (trim form.global_field) download_dir)
      × (dir_of (push_body (on_edit udids form (edit_device udid v)) udids) k
          ≡ (if str_eq udid k then trim v else dir_of (push_body form udids) k))
push_body-on_edit form udids udid k v h shown some_text =
    let edited : Form = record form {
      device_paths = put form.device_paths udid (trim v);
      device_fields = put form.device_fields udid v;
    } in
    let t = or_else form.global_path download_dir in
    let path = push_body-dir_of edited udids k h in
    let edit = get-put form.device_paths udid k (trim v) in
    (
      applied form udids k h,
      rw (on_edit-shown udids form udid v shown) (
          path ∙ elim (Bool-cases (str_eq udid k)) [
            | inl same ↦ rw (edit, same) (or_else-truthy (trim v) t some_text)
            | inr ne ↦ rw (edit, ne) (sym (push_body-dir_of form udids k h))
          ]),
    )
