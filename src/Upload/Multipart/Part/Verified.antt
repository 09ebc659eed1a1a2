-- ===== src/Upload/Multipart/Part/Verified.antt =====
-- service/upload/api/mpupload.go, `UploadPartHandler`: when a part is recorded.
use mathlib.Core.List.{foldl}
use filestore_hsz.Prelude.{
  ◌≡◌, refl, Text, bytes, text_eq, pos, neg, List, [], ◌∷◌, ◌++◌, none, Bool, true, false,
  if◌then◌else◌,
}
use filestore_hsz.Go.{ok, ret}
use filestore_hsz.Util.{Shell, compute_sha1_by_shell}
use filestore_hsz.Http.{json}
use filestore_hsz.Upload.Services.{Files, Redis}
use filestore_hsz.Upload.Multipart.Keys.{chunk_key_prefix, chunk_field_prefix}
use filestore_hsz.Upload.Multipart.Part.{chunk_path, write_reads, verified, upload_part_handler}

module _ {W : Type 0} (files : Files W) (redis : Redis W) (output : Shell W)
    (path_dir : Text → Text) where
  -- The world after the reads of a body are written to a file.
  abbrev pub after_writes : Text → List Text → W → W
  after_writes fpath reads w = foldl (λ v buf. (files.write fpath buf v).1) w reads

  pub write_reads_lem :
      (fpath : Text) (reads : List Text) (w : W)
      → write_reads files redis output path_dir fpath reads w ≡ (ret tt, after_writes fpath reads w)
  unfolding write_reads
  write_reads_lem fpath [] w = refl
  write_reads_lem fpath (buf ∷ reads) w = write_reads_lem fpath reads (files.write fpath buf w).1

  verified_lem :
      (upload_id chunk_index : Text) (good : Bool) (w : W)
      → verified files redis output path_dir upload_id chunk_index good w ≡ (
          if good
          then (
            ret (json 200 (pos 0) (bytes "ok") none),
            (redis.hset
                (chunk_key_prefix ++ upload_id)
                (chunk_field_prefix ++ chunk_index)
                (bytes "1")
                w).1,
          )
          else (
            ret (json 200 (neg 2) (bytes "Verify hash failed, chKIdx:" ++ chunk_index) none),
            w,
          ))
  unfolding verified
  verified_lem upload_id chunk_index true w = refl
  verified_lem upload_id chunk_index false w = refl

  -- A part whose file can be created is written whole, in the order of the reads, and is recorded in
  -- the session exactly if the digest that is computed of the file is the one that was sent; otherwise
  -- the answer names its index and redis is not called.
  pub upload_part_handler_lem :
      (upload_id chunk_sha1 chunk_index digest : Text) (reads : List Text) (w w₁ w₂ : W)
      → files.create
          (chunk_path upload_id chunk_index)
          (files.mkdir_all (path_dir (chunk_path upload_id chunk_index)) w).1
        ≡ (none, w₁)
      → compute_sha1_by_shell output
          (chunk_path upload_id chunk_index)
          (after_writes (chunk_path upload_id chunk_index) reads w₁)
        ≡ (ret (ok digest), w₂)
      → upload_part_handler files redis output path_dir upload_id chunk_sha1 chunk_index reads w ≡ (
          if text_eq digest chunk_sha1
          then (
            ret (json 200 (pos 0) (bytes "ok") none),
            (redis.hset
                (chunk_key_prefix ++ upload_id)
                (chunk_field_prefix ++ chunk_index)
                (bytes "1")
                w₂).1,
          )
          else (
            ret (json 200 (neg 2) (bytes "Verify hash failed, chKIdx:" ++ chunk_index) none),
            w₂,
          ))
  unfolding upload_part_handler
  upload_part_handler_lem upload_id chunk_sha1 chunk_index digest reads w w₁ w₂ creates computes =
      rw (creates, write_reads_lem (chunk_path upload_id chunk_index) reads w₁, computes)
        (verified_lem upload_id chunk_index (text_eq digest chunk_sha1) w₂)
