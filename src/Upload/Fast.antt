-- ===== src/Upload/Fast.antt =====
-- service/upload/api/upload.go, `TryFastUploadHandler`: a file that the store already has.
pub mod Shared
use filestore_hsz.Prelude.{
  Text, bytes, pos, neg, none, some, Bool, true, false, not, ◌||◌, if◌then◌else◌,
}
use filestore_hsz.Go.{Go, pure, deref, ◌>>=◌}
use filestore_hsz.Http.{Response, status, json}
use filestore_hsz.Dbproxy.Json.{Json, Reply}
use filestore_hsz.Dbproxy.Client
use filestore_hsz.Dbproxy.Client.{Stub, FileMeta, table_file_to_file_meta}
use filestore_hsz.Account.User.{succeeded}

module _ {W : Type 0} (j : Json) (stub : Stub j W) where
  -- The answers are `util.RespMsg` as JSON bytes.
  fast_answer : Bool → Response (Unit {0})
  fast_answer true = json 200 (pos 0) (bytes "秒传成功") none
  fast_answer false = json 200 (neg 2) (bytes "秒传失败,请重试") none

  found : Text → Text → Reply j.Wire → Go W (Response (Unit {0}))
  found username filename reply =
      if not reply.suc || j.is_nil reply.payload
      then pure (json 200 (neg 1) (bytes "秒传失败， 请访问普通上传接口") none)
      else (do
        res ←
            Client.on_user_file_upload_finished j stub username
              (record (table_file_to_file_meta (j.to_table_file reply.payload)) {
                file_name = filename;
              })
        done ← succeeded j res
        pure (fast_answer done))

  unfoldable pub try_fast_upload_handler : Text → Text → Text → Go W (Response (Unit {0}))
  unfolding found fast_answer succeeded table_file_to_file_meta
  try_fast_upload_handler username filehash filename = do
    resp ← Client.get_file_meta j stub filehash
    elim resp.error [
      | some e ↦ pure (status 500)
      | none ↦ do reply ← deref resp.value; found username filename reply
    ]
