-- ===== src/Upload/Multipart/Part.antt =====
-- service/upload/api/mpupload.go, `UploadPartHandler`.
pub mod Verified
pub mod Whole
pub mod Recorded
use filestore_hsz.Prelude.{
  Text, bytes, text_eq, pos, neg, List, [], ◌∷◌, ◌++◌, none, some, Bool, false, if◌then◌else◌,
}
use filestore_hsz.Go.{Result, ok, err, Go, pure, call, ◌>>=◌, ◌>>◌}
use filestore_hsz.Common.{chunk_local_root_dir}
use filestore_hsz.Util.{Shell, compute_sha1_by_shell}
use filestore_hsz.Http.{Response, json}
use filestore_hsz.Upload.Services.{Files, Redis}
use filestore_hsz.Upload.Multipart.Keys.{chunk_key_prefix, chunk_field_prefix}

unfoldable pub chunk_path : Text → Text → Text
chunk_path upload_id chunk_index = chunk_local_root_dir ++ upload_id ++ bytes "/" ++ chunk_index

same_digest : Result Text → Text → Bool
same_digest (err e) chunk_sha1 = false
same_digest (ok digest) chunk_sha1 = text_eq digest chunk_sha1

module _ {W : Type 0} (files : Files W) (redis : Redis W) (output : Shell W)
    -- `path.Dir`
    (path_dir : Text → Text) where
  -- The loop over what `Body.Read` returns, until it returns an error; write errors are not looked at.
  pub write_reads : Text → List Text → Go W (Unit {0})
  write_reads fpath [] = pure tt
  write_reads fpath (buf ∷ reads) = do call (files.write fpath buf); write_reads fpath reads

  verified : Text → Text → Bool → Go W (Response (Unit {0}))
  verified upload_id chunk_index good =
      if good
      then (do
        call (
            redis.hset (chunk_key_prefix ++ upload_id) (chunk_field_prefix ++ chunk_index)
              (bytes "1"))
        pure (json 200 (pos 0) (bytes "ok") none))
      else pure (json 200 (neg 2) (bytes "Verify hash failed, chKIdx:" ++ chunk_index) none)

  receive : Text → Text → Text → List Text → Go W (Response (Unit {0}))
  receive upload_id chunk_sha1 chunk_index reads = do
    write_reads (chunk_path upload_id chunk_index) reads
    digest ← compute_sha1_by_shell output (chunk_path upload_id chunk_index)
    verified upload_id chunk_index (same_digest digest chunk_sha1)

  unfoldable pub upload_part_handler : Text → Text → Text → List Text → Go W (Response (Unit {0}))
  unfolding receive verified same_digest write_reads
  upload_part_handler upload_id chunk_sha1 chunk_index reads = do
    call (files.mkdir_all (path_dir (chunk_path upload_id chunk_index)))
    e ← call (files.create (chunk_path upload_id chunk_index))
    elim e [
      | some m ↦ pure (json 200 (pos 0) (bytes "Upload part failed" ++ m) none)
      | none ↦ receive upload_id chunk_sha1 chunk_index reads
    ]
