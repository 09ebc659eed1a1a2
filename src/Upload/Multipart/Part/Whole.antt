-- ===== src/Upload/Multipart/Part/Whole.antt =====
-- service/upload/api/mpupload.go, `UploadPartHandler`, on a disk and with a shell that do what is documented:
-- a part that is sent with its digest is recorded.
use filestore_hsz.Prelude.{
  ◌≡◌, refl, ap, sym, ◌∙◌, Text, bytes, text_eq_refl, length, pos, List, [], ◌∷◌, ◌++◌, Option,
  none, some,
}
use filestore_hsz.Go.{ok, ret}
use filestore_hsz.Util.{Shell, digest, newline}
use filestore_hsz.Util.Printed.{sha1_command, compute_sha1_by_shell_lem}
use filestore_hsz.Util.Stream.{concat, append_assoc, append_none}
use filestore_hsz.Http.{json}
use filestore_hsz.Upload.Disk.{DiskLaws}
use filestore_hsz.Upload.Services.{Files, Redis}
use filestore_hsz.Upload.Multipart.Keys.{chunk_key_prefix, chunk_field_prefix}
use filestore_hsz.Upload.Multipart.Part.{chunk_path, upload_part_handler}
use filestore_hsz.Upload.Multipart.Part.Verified.{after_writes, upload_part_handler_lem}

module _ {W : Type 0} (files : Files W) (disk : DiskLaws files) (redis : Redis W) (output : Shell W)
    (path_dir : Text → Text) (sha1 : Text → Text) where
  written :
      (p s : Text) (reads : List Text) (w : W)
      → ((b : Text) (v : W) → (files.write p b v).0 ≡ (length b, none))
      → disk.contents w p ≡ some s
      → disk.contents (after_writes files redis output path_dir p reads w) p
        ≡ some (s ++ concat reads)
  written p s [] w writes there = there ∙ ap (λ (t : Text). some t) (sym (append_none s))
  written p s (b ∷ reads) w writes there =
      written p (s ++ b) reads (files.write p b w).1 writes (
        disk.writes p s b w (files.write p b w).1 there
          (ap (λ n. (n, (files.write p b w).1)) (writes b w)))
      ∙ ap (λ (t : Text). some t) (append_assoc s b (concat reads))

  -- A part whose reads make up a body, sent with the digest of that body, is answered with `ok` and
  -- recorded in its session, whatever was at its path. The part's file is created and takes its writes whole, and the shell prints the
  -- digest of the part's file, which changes nothing.
  pub upload_part_handler_whole :
      (upload_id i body : Text) (reads : List Text) (w : W)
      → ((v : W) → (files.create (chunk_path upload_id i) v).0 ≡ none)
      → ((b : Text) (v : W) → (files.write (chunk_path upload_id i) b v).0 ≡ (length b, none))
      → concat reads ≡ body
      → ((v : W) (s : Text)
          → disk.contents v (chunk_path upload_id i) ≡ some s
          → output (sha1_command (chunk_path upload_id i)) v ≡ (ok (digest sha1 s ++ newline), v))
      → (v : W) × (upload_part_handler files redis output path_dir upload_id
            (digest sha1 body)
            i
            reads
            w
          ≡ (
            ret (json 200 (pos 0) (bytes "ok") none),
            (redis.hset (chunk_key_prefix ++ upload_id) (chunk_field_prefix ++ i) (bytes "1") v).1,
          ))
  upload_part_handler_whole upload_id i body reads w creates writes whole prints =
      let p : Text = chunk_path upload_id i in
      let v : W = (files.mkdir_all (path_dir p) w).1 in
      let made = ap (λ (e : Option Text). (e, (files.create p v).1)) (creates v) in
      let v' : W = after_writes files redis output path_dir p reads (files.create p v).1 in
      let there : disk.contents v' p ≡ some body =
        written p [] reads (files.create p v).1 writes (disk.creates p v (files.create p v).1 made)
        ∙ ap (λ (t : Text). some t) whole in
      (
        v',
        upload_part_handler_lem files redis output path_dir upload_id (digest sha1 body) i
              (digest sha1 body) reads w (files.create p v).1 v' made
              (compute_sha1_by_shell_lem output sha1 p body v' v' (prints v' body there))
            ∙ rw (text_eq_refl (digest sha1 body)) refl,
      )
