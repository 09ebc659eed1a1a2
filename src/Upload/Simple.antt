-- ===== src/Upload/Simple.antt =====
-- service/upload/api/upload.go, `DoUploadHandler`: a file in one request.
pub mod Saved
pub mod Kept
use filestore_hsz.Prelude.{
  ℕ, ◌/◌, ◌^◌, Text, bytes, length, ℤ, pos, neg, ltb_ℤ, ◌++◌, Option, none, some, Bool, true, false,
  not, ◌==◌, if◌then◌else◌,
}
use filestore_hsz.Go.{Result, ok, err, Go, pure, fail, call, ◌>>=◌, ◌>>◌}
use filestore_hsz.Common.{
  StoreType, store_oss, merge_local_root_dir, oss_root_dir, trans_exchange_name,
  trans_oss_routing_key,
}
use filestore_hsz.Util.{digest}
use filestore_hsz.Http.{Response, json}
use filestore_hsz.Dbproxy.Sql.{Clock}
use filestore_hsz.Dbproxy.Json.{Json}
use filestore_hsz.Dbproxy.Client
use filestore_hsz.Dbproxy.Client.{Stub, WithError, FileMeta}
use filestore_hsz.Account.User.{succeeded}
use filestore_hsz.Upload.Services.{Files, Stores, Publish, TransferJson}

-- The form's file: its name and its bytes, or the error of reading it.
pub record FormFile : Type 0 where
  pub filename : Text
  pub content : Result Text

-- The deferred answer for `errCode`.
unfoldable pub upload_answer : ℤ → Response (Unit {0})
upload_answer code =
    if ltb_ℤ code (pos 0)
    then json 200 code (bytes "上传失败") none
    else json 200 code (bytes "上传成功") none

-- `cfg.CurrentStoreType` and `cfg.AsyncTransferEnable`
abbrev pub current_store_type : StoreType
current_store_type = store_oss

abbrev pub async_transfer_enable : Bool
async_transfer_enable = true

module _ {W : Type 0} (j : Json) (stub : Stub j W) (clock : Clock W) (files : Files W)
    (stores : Stores W) (publish : Publish W) (transfer : TransferJson) (sha1 : Text → Text)
    (format_time : ℕ → Text) where
  -- Step 7: the row of the user's file.
  save_user_file : Text → FileMeta → Go W ℤ
  save_user_file username m = do
    res ← Client.on_user_file_upload_finished j stub username m
    done ← succeeded j res
    pure (if done then pos 0 else neg 7)

  -- Steps 6 and 7. Of the first answer only the error is read.
  save : Text → FileMeta → Go W ℤ
  save username m = do
    res ← Client.on_file_upload_finished j stub m
    elim res.error [ some e ↦ pure (neg 6) | none ↦ save_user_file username m ]

  -- Step 5 over its configuration. An error of `Publish` is only logged.
  put_sync : (Text → Text → Go W (Option Text)) → Text → Text → Text → FileMeta → Go W ℤ
  put_sync put path content username m = do
    e ← put path content
    elim e [ some x ↦ pure (neg 5) | none ↦ save username (record m { location = path }) ]

  put_async : Text → Text → FileMeta → Go W ℤ
  put_async path username m = do
    publish trans_exchange_name trans_oss_routing_key (
        transfer.marshal (record {
          file_hash = m.file_sha1;
          cur_location = m.location;
          dest_location = path;
          dest_store_type = store_oss;
        }))
    save username m

  unfoldable pub store : StoreType → Bool → Text → Text → FileMeta → Go W ℤ
  unfolding put_sync put_async save save_user_file succeeded
  store StoreType.store_ceph async content username m =
      put_sync (λ p b. call (stores.put_ceph p b)) (bytes "/ceph/" ++ m.file_sha1) content username
        m
  store StoreType.store_oss false content username m =
      put_sync (λ p b. stores.put_oss p (ok b)) (oss_root_dir ++ m.file_name) content username m
  store StoreType.store_oss true content username m =
      put_async (oss_root_dir ++ m.file_name) username m
  store _ async content username m = save username m

  -- `int64(nByte) != fileMeta.FileSize || err != nil`; the branch reads `err.Error()`.
  written : Text → Text → FileMeta → ℕ × Option Text → Go W ℤ
  written content username m (n, some e) = pure (neg 4)
  written content username m (n, none) =
      if not (n == length content)
      then fail
      else store current_store_type async_transfer_enable content username m

  save_local : Text → Text → FileMeta → Go W ℤ
  save_local content username m = do
    e ← call (files.create m.location)
    elim e [
      | some x ↦ pure (neg 3)
      | none ↦ do r ← call (files.write m.location content); written content username m r
    ]

  upload_content : FormFile → Text → Result Text → Go W ℤ
  upload_content file username (err e) = pure (neg 2)
  upload_content file username (ok content) = do
    now ← call clock.now
    save_local content username (record {
      file_sha1 = digest sha1 content;
      file_name = file.filename;
      file_size = pos (length content);
      location = merge_local_root_dir ++ digest sha1 content;
      upload_at = format_time (now / 10 ^ 9);
    })

  -- `errCode` at the end of the handler
  unfoldable pub upload_code : Result FormFile → Text → Go W ℤ
  unfolding upload_content save_local written store
  upload_code (err e) username = pure (neg 1)
  upload_code (ok file) username = upload_content file username file.content

  unfoldable pub do_upload_handler : Result FormFile → Text → Go W (Response (Unit {0}))
  unfolding upload_answer
  do_upload_handler form username = do code ← upload_code form username; pure (upload_answer code)
