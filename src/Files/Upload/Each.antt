-- ===== src/Files/Upload/Each.antt =====
-- Every file that is handed over is settled.
use ms_robot.Files.Chunks.Whole.{is_settled, calculate_md5-settled}
use ms_robot.Base.{
  none, some, true, false, refl, inl, inr, [], ◌∷◌, suc, arith, Str, length, codes, List, ◌≡◌, ◌++◌,
  Bool, Option, length-append, ◌+◌, ℕ, Option-cases, if◌then◌else◌,
}
use ms_robot.Files.Upload.{
  hashed, settle_upload, finish_upload, fail_upload, Uploads, upload_file, handle_files, Reply,
  LocalFile, upload_error,
}
use ms_robot.Files.Chunks.{Spark, calculate_md5, resolved, rejected, Settled}

-- The notices that report a success.
abbrev pub successes : List (Bool × Str) → ℕ
successes [] = 0
successes ((ok, s) ∷ l) = (if ok then 1 else 0) + successes l

successes-append :
    (l : List (Bool × Str)) (ok : Bool) (s : Str)
    → successes (l ++ (ok, s) ∷ []) ≡ successes l + (if ok then 1 else 0)
successes-append [] ok s = omega arith
successes-append ((b, r) ∷ l) ok s = omega (arith, successes-append l ok s)

-- One more notice, and one more reload exactly if it reports a success.
abbrev Told : Uploads → Uploads → Type 0
Told u t =
    (length t.notices ≡ suc (length u.notices))
    × (t.reloads + successes u.notices ≡ u.reloads + successes t.notices)

fail-Told : (u : Uploads) (message : Str) → Told u (fail_upload u message)
unfolding fail_upload
fail-Told u message =
    let told : Str = codes "上传文件失败: " ++ message in
    (
      ground (arith, length-append u.notices ((false, told) ∷ [])),
      ground (arith, successes-append u.notices false told),
    )

finish-Told : (u : Uploads) (name : Str) → Told u (finish_upload u name)
unfolding finish_upload
finish-Told u name =
    let told : Str = codes "文件 \"" ++ (name ++ codes "\" 上传成功") in
    (
      ground (arith, length-append u.notices ((true, told) ∷ [])),
      ground (arith, successes-append u.notices true told),
    )

hashed-Told :
    (u : Uploads) (name : Str) (reply : Reply) (h : Option Settled)
    → is_settled h ≡ true
    → Told u (hashed u name reply h).0 × ((hashed u name reply h).1 ≡ true)
unfolding hashed settle_upload
hashed-Told u name reply none h = absurd (ground arith)
hashed-Told u name reply (some (rejected m)) h = (fail-Told u m, refl)
hashed-Told u name reply (some (resolved md5)) h = elim (Option-cases (upload_error reply)) [
  | inl e ↦ rw (e, hashed, settle_upload) (finish-Told u name, refl)
  | inr (m, e) ↦ rw (e, hashed, settle_upload) (fail-Told u m, refl)
]

upload-Told :
    (S : Spark) (has_spark : Bool) (u : Uploads) (file : LocalFile) (reply : Reply)
    → Told u (upload_file S has_spark u file reply).0
      × ((upload_file S has_spark u file reply).1 ≡ true)
unfolding upload_file
upload-Told S has_spark u file reply =
    hashed-Told u file.name reply (calculate_md5 S has_spark file.readable file.bytes)
      (calculate_md5-settled S has_spark file.readable file.bytes)

-- Whatever becomes of each hash and each request, `handleFiles` comes to its end, with one notice more
-- for each file; the list of files is loaded again as many times more as there are more notices of
-- success.
pub handle_files-settled :
    (S : Spark) (has_spark : Bool) (u : Uploads) (files : List (LocalFile × Reply))
    → ((handle_files S has_spark u files).1 ≡ true)
      × (length (handle_files S has_spark u files).0.notices ≡ length u.notices + length files)
      × ((handle_files S has_spark u files).0.reloads + successes u.notices
          ≡ u.reloads + successes (handle_files S has_spark u files).0.notices)
unfolding handle_files
handle_files-settled S has_spark u [] = (refl, ground arith, refl)
handle_files-settled S has_spark u ((file, reply) ∷ files) =
    let n = upload-Told S has_spark u file reply in
    let rest = handle_files-settled S has_spark (upload_file S has_spark u file reply).0 files in
    rw n.1 (rest.0, ground (arith, rest.1, n.0.0), ground (arith, rest.2, n.0.1))
