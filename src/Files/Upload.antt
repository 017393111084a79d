-- ===== src/Files/Upload.antt =====
-- Uploads, one file after the other (assets/web/static/js/files.js): `handleFiles`, `uploadFile` and how
-- `uploadFileWithProgress` settles. The progress bars
-- are left out.
pub mod Each
use ms_robot.Identity.{decimal}
use ms_robot.Base.Maps.{put, Map, delete, has}
use ms_robot.Base.{
  none, some, true, false, refl, inl, inr, [], ◌∷◌, zero, suc, arith, Str, map, List, Bool,
  if◌then◌else◌, Option, ℕ, ◌++◌, leb, codes, ◌&&◌, ◌==◌, or_else, ◌||◌,
}
use ms_robot.Files.Chunks.{Spark, calculate_md5, resolved, rejected, Settled}

-- A file that the user hands over; `readable n`: whether its chunk `n` can be read.
pub record LocalFile : Type 0 where
  pub name : Str
  pub bytes : List ℕ
  pub readable : ℕ → Bool

-- The `error` of a reply: a text, an object with or without a message, or nothing.
pub data ErrorField : Type 0 where
  error_text : Str → ErrorField
  error_object : Str → ErrorField
  no_message : ErrorField

-- How the request ends: a status with the parsed body, if it can be parsed, or an event.
pub data Reply : Type 0 where
  loaded : ℕ → Option (Bool × ErrorField) → Reply
  network_error aborted : Reply

abbrev pub message_of : ErrorField → Str
message_of (error_text s) = s
message_of (error_object s) = s
message_of no_message = []

-- What the promise of the upload is rejected with; none if it is resolved.
unfoldable pub upload_error : Reply → Option Str
upload_error (loaded status body) =
    if status == 200
    then elim body [
      | none ↦ some (codes "解析响应失败")
      | some (success, err) ↦
          if success then none else some (or_else (message_of err) (codes "上传失败"))
    ]
    else some (codes "上传失败: HTTP " ++ decimal status)
upload_error network_error = some (codes "网络错误")
upload_error aborted = some (codes "上传已取消")

-- `notices` holds the texts shown, with whether they report a success; `reloads` counts the calls of
-- `loadFileList`.
pub record Uploads : Type 0 where
  pub notices : List (Bool × Str)
  pub reloads : ℕ

-- The `catch` of `uploadFile`.
fail_upload : Uploads → Str → Uploads
fail_upload u message = record u {
  notices = u.notices ++ (false, codes "上传文件失败: " ++ message) ∷ [];
}

finish_upload : Uploads → Str → Uploads
finish_upload u name = record u {
  notices = u.notices ++ (true, codes "文件 \"" ++ (name ++ codes "\" 上传成功")) ∷ [];
  reloads = suc u.reloads;
}

settle_upload : Uploads → Str → Option Str → Uploads
settle_upload u name none = finish_upload u name
settle_upload u name (some message) = fail_upload u message

-- What follows the hash; with the flag whether `uploadFile` comes to its end.
hashed : Uploads → Str → Reply → Option Settled → Uploads × Bool
hashed u name reply none = (u, false)
hashed u name reply (some (rejected message)) = (fail_upload u message, true)
hashed u name reply (some (resolved md5)) = (settle_upload u name (upload_error reply), true)

module _ (S : Spark) (has_spark : Bool) where
  pub upload_file : Uploads → LocalFile → Reply → Uploads × Bool
  unfolding hashed
  upload_file u file reply =
      hashed u file.name reply (calculate_md5 S has_spark file.readable file.bytes)

  -- `handleFiles`: the next file waits for the one before.
  pub handle_files : Uploads → List (LocalFile × Reply) → Uploads × Bool
  handle_files u [] = (u, true)
  handle_files u ((file, reply) ∷ files) =
      let done = upload_file u file reply in
      let rest = handle_files done.0 files in if done.1 then rest else done
