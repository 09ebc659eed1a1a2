-- ===== src/Upload/Multipart/Complete.antt =====
-- service/upload/api/mpupload.go, `CompleteUploadHandler`.
use filestore_hsz.Prelude.{
  Text, bytes, ℤ, pos, neg, eqb_ℤ, [], ◌++◌, Option, none, some, Bool, true, not, if◌then◌else◌,
}
use filestore_hsz.Go.{Result, ok, err, Go, pure, call, ◌>>=◌, ◌>>◌}
use filestore_hsz.Go.Strconv.{atoi}
use filestore_hsz.Common.{
  merge_local_root_dir, chunk_local_root_dir, oss_root_dir, trans_exchange_name,
  trans_oss_routing_key, store_oss,
}
use filestore_hsz.Util.{Shell}
use filestore_hsz.Http.{Response, json}
use filestore_hsz.Dbproxy.Json.{Json}
use filestore_hsz.Dbproxy.Client
use filestore_hsz.Dbproxy.Client.{Stub, FileMeta}
use filestore_hsz.Upload.Services.{Redis, Publish, TransferJson}
use filestore_hsz.Upload.Multipart.Keys.{
  chunk_key_prefix, hash_up_id_key_prefix, Fields, is_complete,
}

-- The fields of the request's form.
pub record CompleteForm : Type 0 where
  pub upload_id : Text
  pub username : Text
  pub filehash : Text
  pub filesize : Text
  pub filename : Text

-- `data` is the text of an error.
abbrev pub Answer : Type 0
Answer = Response Text

unfoldable pub merge_cmd : Text → Text → Text
merge_cmd src_path dest_path =
    bytes "cd " ++ src_path ++ bytes " && ls | sort -n | xargs cat > " ++ dest_path

-- `ferr` before `uferr`
first_error : Option Text → Option Text → Option Text
first_error (some e) uferr = some e
first_error none uferr = uferr

-- `delUploadID != 1 || delUploadInfoErr != nil || delHashErr != nil`
deletion_failed : Result ℤ → Result ℤ → Bool
deletion_failed (err e) deleted = true
deletion_failed (ok n) (err e) = true
deletion_failed (ok n) (ok deleted) = not (eqb_ℤ deleted (pos 1))

module _ {W : Type 0} (j : Json) (stub : Stub j W) (redis : Redis W) (shell : Shell W)
    (publish : Publish W) (transfer : TransferJson) (form : CompleteForm) where
  file_meta : FileMeta
  file_meta = record {
    file_sha1 = form.filehash;
    file_name = form.filename;
    file_size = (atoi form.filesize).number;
    location = merge_local_root_dir ++ form.filehash;
    upload_at = [];
  }

  -- Steps 6 and 7.
  hand_over : Go W Answer
  unfolding file_meta
  hand_over = do
    publish trans_exchange_name trans_oss_routing_key (
        transfer.marshal (record {
          file_hash = form.filehash;
          cur_location = file_meta.location;
          dest_location = oss_root_dir ++ form.filename;
          dest_store_type = store_oss;
        }))
    pure (json 200 (pos 0) (bytes "ok") none)

  -- The chunks and the session leave redis.
  clean_up : Go W Answer
  clean_up = do
    hash_deleted ← call (redis.del (hash_up_id_key_prefix ++ form.filehash))
    deleted ← call (redis.del (chunk_key_prefix ++ form.upload_id))
    if deletion_failed hash_deleted deleted
        then pure (json 200 (neg 5) (bytes "数据更新失败") none)
        else hand_over

  saved : Option Text → Go W Answer
  saved (some e) = pure (json 200 (neg 4) (bytes "数据更新失败") (some e))
  saved none = clean_up

  -- Step 5: both tables are written, whatever the first answers.
  save : Go W Answer
  save = do
    f ← Client.on_file_upload_finished j stub file_meta
    uf ← Client.on_user_file_upload_finished j stub form.username file_meta
    saved (first_error f.error uf.error)

  merged : Result Text → Go W Answer
  merged (err e) = pure (json 200 (neg 3) (bytes "合并失败") none)
  merged (ok out) = save

  unfoldable pub merge : Go W Answer
  unfolding hand_over clean_up saved save merged file_meta deletion_failed first_error
  merge = do
    out ← call (
        shell (
          merge_cmd (chunk_local_root_dir ++ form.upload_id ++ bytes "/")
            (merge_local_root_dir ++ form.filehash)))
    merged out

  checked : Result Fields → Go W Answer
  checked (err e) = pure (json 200 (neg 1) (bytes "服务错误") none)
  checked (ok fields) =
      if is_complete fields then merge else pure (json 200 (neg 2) (bytes "分块不完整") none)

  unfoldable pub complete_upload_handler : Go W Answer
  unfolding checked
  complete_upload_handler = do
    fields ← call (redis.hgetall (bytes "MP_" ++ form.upload_id))
    checked fields
