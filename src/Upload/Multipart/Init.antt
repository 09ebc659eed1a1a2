-- ===== src/Upload/Multipart/Init.antt =====
-- service/upload/api/mpupload.go, `InitialMultipartUploadHandler`.
use filestore_hsz.Prelude.{
  ℕ, Text, bytes, text_eq, length, ℤ, pos, neg, List, [], ◌++◌, none, some, Bool, false, leb,
  if◌then◌else◌,
}
use filestore_hsz.Go.{Result, ok, err, Go, pure, call, ◌>>=◌, ◌>>◌}
use filestore_hsz.Go.Strconv.{atoi, IntResult, format_uint, format_int}
use filestore_hsz.Common.{file_already_exists}
use filestore_hsz.Http.{Response, json}
use filestore_hsz.Dbproxy.Sql.{Clock}
use filestore_hsz.Dbproxy.Json.{Json}
use filestore_hsz.Dbproxy.Client
use filestore_hsz.Dbproxy.Client.{Stub, WithError}
use filestore_hsz.Upload.Services.{Redis}
use filestore_hsz.Upload.Multipart.Keys.{
  chunk_key_prefix, hash_up_id_key_prefix, chunk_size, session_seconds, chunk_count, Fields,
  chunks_exist,
}

pub record MultipartUploadInfo : Type 0 where
  pub file_hash : Text
  pub file_size : ℤ
  pub upload_id : Text
  pub chunk_size : ℕ
  pub chunk_count : ℤ
  pub chunk_exists : List ℤ

abbrev pub upload_info : Text → ℤ → Text → List ℤ → MultipartUploadInfo
upload_info filehash filesize upload_id chunks = record {
  file_hash = filehash;
  file_size = filesize;
  upload_id = upload_id;
  chunk_size = chunk_size;
  chunk_count = chunk_count filesize;
  chunk_exists = chunks;
}

abbrev pub Answer : Type 0
Answer = Response MultipartUploadInfo

-- `keyExists, _ := redis.Bool(…)`
true_reply : Result Bool → Bool
true_reply (ok b) = b
true_reply (err e) = false

module _ {W : Type 0} (j : Json) (stub : Stub j W) (clock : Clock W) (redis : Redis W) where
  -- Step 6, for a session with no chunk.
  write_session : MultipartUploadInfo → Go W (Unit {0})
  write_session info = do
    let key = chunk_key_prefix ++ info.upload_id
    call (redis.hset key (bytes "chunkcount") (format_int info.chunk_count))
    call (redis.hset key (bytes "filehash") info.file_hash)
    call (redis.hset key (bytes "filesize") (format_int info.file_size))
    call (redis.expire key session_seconds)
    call (redis.set_ex (hash_up_id_key_prefix ++ info.file_hash) info.upload_id session_seconds)

  -- Steps 5 to 7.
  unfoldable pub open_session : Text → ℤ → Text → List ℤ → Go W Answer
  unfolding write_session
  open_session filehash filesize upload_id chunks = do
    let info = upload_info filehash filesize upload_id chunks
    if leb (length chunks) 0 then write_session info else pure tt
    pure (json 200 (pos 0) (bytes "ok") (some info))

  resumed : Text → ℤ → Text → Result Fields → Go W Answer
  resumed filehash filesize upload_id (err e) =
      pure (json 200 (neg 3) (bytes "Upload part failed" ++ e) none)
  resumed filehash filesize upload_id (ok fields) =
      open_session filehash filesize upload_id (chunks_exist fields)

  -- Step 4: a new upload ID, or the chunks of the one that is there.
  unfoldable pub choose_session : Text → Text → ℤ → Text → Go W Answer
  unfolding resumed
  choose_session username filehash filesize upload_id =
      if text_eq upload_id []
      then (do
        now ← call clock.now
        open_session filehash filesize (username ++ format_uint 16 now) [])
      else (do
        fields ← call (redis.hgetall (chunk_key_prefix ++ upload_id))
        resumed filehash filesize upload_id fields)

  with_id : Text → Text → ℤ → Result Text → Go W Answer
  with_id username filehash filesize (err e) =
      pure (json 200 (neg 2) (bytes "Upload part failed" ++ e) none)
  with_id username filehash filesize (ok upload_id) =
      choose_session username filehash filesize upload_id

  -- Step 3: the upload ID of an upload of the same file.
  find_session : Text → Text → ℤ → Go W Answer
  find_session username filehash filesize = do
    there ← call (redis.exists (hash_up_id_key_prefix ++ filehash))
    if true_reply there
        then (do
          upload_id ← call (redis.get (hash_up_id_key_prefix ++ filehash))
          with_id username filehash filesize upload_id)
        else choose_session username filehash filesize []

  start : Text → Text → IntResult → Go W Answer
  start username filehash size =
      if size.failed then pure (json 200 (neg 1) (bytes "params invalid") none) else do
        there ← Client.is_user_file_uploaded j stub username filehash
        if there.value
            then pure (json 200 (pos file_already_exists) (bytes "file exists") none)
            else find_session username filehash size.number

  unfoldable pub initial_multipart_upload_handler : Text → Text → Text → Go W Answer
  unfolding start find_session with_id true_reply
  initial_multipart_upload_handler username filehash filesize =
      start username filehash (atoi filesize)
