-- ===== src/Download.antt =====
-- service/download/api/download.go: the address of a file, and its bytes.
pub mod Served
pub mod Range
pub mod Route
use filestore_hsz.Prelude.{
  Text, bytes, has_prefix, pos, [], ◌++◌, Option, none, some, Bool, false, not, if◌then◌else◌,
}
use filestore_hsz.Go.{Result, ok, err, Go, pure, call, deref, ◌>>=◌}
use filestore_hsz.Common.{status_server_error, merge_local_root_dir, ceph_root_dir, oss_root_dir}
use filestore_hsz.Http.{Response, json, raw, named, attachment}
use filestore_hsz.Dbproxy.Json.{Json, Reply}
use filestore_hsz.Dbproxy.Client
use filestore_hsz.Dbproxy.Client.{Stub, WithError}
use filestore_hsz.Upload.Services.{Files, Stores}

abbrev pub Answer : Type 0
Answer = Response (Unit {0})

abbrev pub server_error : Answer
server_error = json 200 (pos status_server_error) (bytes "server error") none

-- What the address says of where the file is.
pub data Place : Type 0 where
  local ceph oss elsewhere : Place

unfoldable pub place_of : Text → Place
place_of addr =
    if has_prefix addr merge_local_root_dir
    then local
    else if has_prefix addr ceph_root_dir
    then ceph
    else if has_prefix addr oss_root_dir
    then oss
    else elsewhere

-- `host`, `filehash`, `username` and `token` of the request
pub record UrlRequest : Type 0 where
  pub host : Text
  pub filehash : Text
  pub username : Text
  pub token : Text

unfoldable pub download_url : UrlRequest → Text
download_url r =
    bytes "http://"
    ++ r.host
    ++ bytes "/file/download?filehash="
    ++ r.filehash
    ++ bytes "&username="
    ++ r.username
    ++ bytes "&token="
    ++ r.token

abbrev octet : Text → Answer
octet = raw 200 (bytes "application/octet-stream")

module _ {W : Type 0} (j : Json) (stub : Stub j W) (stores : Stores W) where
  url_at : Place → UrlRequest → Text → Go W Answer
  url_at local r addr = pure (octet (download_url r))
  url_at ceph r addr = pure (octet (download_url r))
  url_at oss r addr = do url ← stores.oss_url addr; pure (octet url)
  url_at elsewhere r addr = pure (octet (bytes "Error: 下载链接暂时无法生成"))

  unfoldable pub download_url_handler : UrlRequest → Go W Answer
  unfolding url_at download_url place_of
  download_url_handler r = do
    resp ← Client.get_file_meta j stub r.filehash
    elim resp.error [
      | some e ↦ pure server_error
      | none ↦ do
        reply ← deref resp.value
        let addr = (j.to_table_file reply.payload).file_addr.string
        url_at (place_of addr) r addr
    ]

  -- `ferr != nil || uferr != nil || !fResp.Suc || !ufResp.Suc`, left to right
  unfoldable pub both_succeeded :
      WithError (Option (Reply j.Wire)) → WithError (Option (Reply j.Wire)) → Go W Bool
  both_succeeded f uf = elim f.error [
    | some e ↦ pure false
    | none ↦ elim uf.error [
      | some e ↦ pure false
      | none ↦ do
        reply ← deref f.value
        if not reply.suc then pure false else do user_reply ← deref uf.value; pure user_reply.suc
    ]
  ]

  octect : Text → Text → Answer
  octect = named 200 (bytes "application/octect-stream")

  -- An error of ceph leaves no bytes, and is not looked at.
  ceph_bytes : Result Text → Text
  ceph_bytes (err e) = []
  ceph_bytes (ok b) = b

  oss_answer : Text → Result Text → Answer
  oss_answer name (err e) =
      raw 500 (bytes "application/octect-stream") (bytes "Intern server error.")
  oss_answer name (ok b) = octect name b

  unfoldable pub serve : Place → Text → Text → Go W Answer
  unfolding ceph_bytes oss_answer octect
  serve local addr name = pure (attachment addr name)
  serve ceph addr name = do b ← call (stores.get_ceph addr); pure (octect name (ceph_bytes b))
  serve oss addr name = do b ← stores.get_oss addr; pure (oss_answer name b)
  serve elsewhere addr name =
      pure (raw 404 (bytes "application/octect-stream") (bytes "File not found."))

  unfoldable pub download_handler : Text → Text → Go W Answer
  unfolding both_succeeded serve
  download_handler fsha1 username = do
    f ← Client.get_file_meta j stub fsha1
    uf ← Client.query_user_file_meta j stub username fsha1
    good ← both_succeeded f uf
    if not good then pure server_error else do
      reply ← deref f.value
      user_reply ← deref uf.value
      let addr = (j.to_table_file reply.payload).file_addr.string
      serve (place_of addr) addr (j.to_table_user_file user_reply.payload).file_name

  -- The file is sent from its local path, whatever its address is.
  range_answer : Text → Text → Option Text → Answer
  range_answer fpath name (some e) = server_error
  range_answer fpath name none = attachment fpath name

  unfoldable pub range_download_handler : Files W → Text → Text → Go W Answer
  unfolding both_succeeded range_answer
  range_download_handler files fsha1 username = do
    f ← Client.get_file_meta j stub fsha1
    uf ← Client.query_user_file_meta j stub username fsha1
    good ← both_succeeded f uf
    if not good then pure server_error else do
      user_reply ← deref uf.value
      e ← call (files.open_file (merge_local_root_dir ++ fsha1))
      pure (
          range_answer (merge_local_root_dir ++ fsha1)
            (j.to_table_user_file user_reply.payload).file_name e)
