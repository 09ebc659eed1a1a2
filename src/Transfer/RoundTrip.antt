-- ===== src/Transfer/RoundTrip.antt =====
-- service/upload/api/upload.go, service/transfer/main.go and service/download/api/download.go together:
-- a file that is uploaded, transferred and downloaded.
use mathlib.Core.Path.{subst}
use filestore_hsz.Prelude.{
  ℕ, ◌^◌, ◌<◌, ◌≡◌, refl, sym, ap, ◌∙◌, Text, bytes, text_eq, length, length-append, pos, [], ◌++◌,
  none, some, Bool, true, false, Option, lt→ltb, arith,
}
use filestore_hsz.Go.{ok, Exit, ret}
use filestore_hsz.Common.{oss_root_dir, trans_exchange_name, trans_oss_routing_key}
use filestore_hsz.Util.{digest}
use filestore_hsz.Http.{Response, json, named}
use filestore_hsz.Dbproxy.Sql.{Sql, Clock}
use filestore_hsz.Dbproxy.Mysql.{
  FitsChar, Fits, is_utf8mb3, is_utf8mb3-append, MySql, FileRow, UserFileRow,
}
use filestore_hsz.Dbproxy.Orm.UserFile.Shown.{found_user_file}
use filestore_hsz.Dbproxy.Json.{Json, JsonLaws, IsCarriedUserFile}
use filestore_hsz.Dbproxy.Client.Delivery.{direct}
use filestore_hsz.Dbproxy.Client.Frame.{Apart}
use filestore_hsz.Upload.Services.{Files, Stores, Publish, TransferJson}
use filestore_hsz.Upload.Disk.{DiskLaws}
use filestore_hsz.Upload.Simple.{do_upload_handler}
use filestore_hsz.Upload.Simple.Saved.{local_path, handover, do_upload_handler_lem}
use filestore_hsz.Upload.Simple.Kept.{do_upload_handler-Keeps}
use filestore_hsz.Download.{download_handler}
use filestore_hsz.Transfer.{process_transfer}
use filestore_hsz.Transfer.Storage.{BucketLaws}
use filestore_hsz.Transfer.Served.{transferred_file_downloads}

-- The rows of an upload.
abbrev file_row : (Text → Text) → Text → Text → Text → FileRow
file_row sha1 name content addr = record {
  hash = digest sha1 content;
  name = name;
  size = pos (length content);
  addr = addr;
  status = pos 0;
}

abbrev user_file_row : (Text → Text) → Text → Text → UserFileRow
user_file_row sha1 name content = record {
  hash = digest sha1 content;
  name = name;
  size = pos (length content);
  status = pos 0;
}

local_is_elsewhere :
    (sha1 : Text → Text) (name content : Text)
    → text_eq (local_path sha1 content) (oss_root_dir ++ name) ≡ false
unfolding text_eq bytes
local_is_elsewhere sha1 name content = refl

short_object : (name : Text) → Fits name 256 → Fits (oss_root_dir ++ name) 1024
unfolding bytes is_utf8mb3
short_object name (short, plain) =
    (omega (arith, length-append oss_root_dir name), is_utf8mb3-append oss_root_dir name refl plain)

module _ {W : Type 0} (sql : Sql W) (my : MySql sql) (clock : Clock W) (j : Json)
    (laws : JsonLaws j) (quiet : (v : W) → my.view (clock.now v).1 ≡ my.view v) (files : Files W)
    (stores : Stores W) (disk : DiskLaws files) (bucket : BucketLaws stores) (publish : Publish W)
    (transfer : TransferJson) (sha1 : Text → Text) (format_time : ℕ → Text) where
  -- A new file that a user uploads, whose message is then taken from the queue, and which the user then
  -- downloads: the upload and the transfer succeed, and the download answers with exactly the bytes
  -- that were uploaded, under the name they were uploaded with. The texts are UTF-8, with
  -- characters of at most three bytes, and fit their
  -- columns, the size is one that a float64 holds, the local file is created and written, the message
  -- decodes to what it was made of, publishing it leaves the local file, the bucket takes the object,
  -- and disk, bucket, database and codec are the documented ones and do not write to one another.
  pub uploaded_file_downloads :
      (username name content : Text) (b : Bool) (w w₁ w₂ w₃ : W)
      → files.create (local_path sha1 content) (clock.now w).1 ≡ (none, w₁)
      → files.write (local_path sha1 content) content w₁ ≡ ((length content, none), w₂)
      → publish trans_exchange_name trans_oss_routing_key
          (transfer.marshal (handover sha1 name content))
          w₂
        ≡ (ret b, w₃)
      → disk.contents w₃ (local_path sha1 content) ≡ disk.contents w₂ (local_path sha1 content)
      → (my.view w₃).files (digest sha1 content) ≡ none
      → (my.view w₃).user_files username (digest sha1 content) ≡ none
      → transfer.unmarshal (transfer.marshal (handover sha1 name content))
        ≡ ok (handover sha1 name content)
      → ((v : W)
          → (v' : W) × (stores.put_oss (oss_root_dir ++ name) (ok content) v ≡ (ret none, v'))
            × (my.view v' ≡ my.view v))
      → Apart sql clock (λ v. disk.contents v (local_path sha1 content) ≡ some content)
      → Apart sql clock (λ v. bucket.objects v (oss_root_dir ++ name) ≡ some content)
      → length content < 2 ^ 53
      → FitsChar (digest sha1 content) 40
      → Fits name 256
      → Fits username 64
      → j.is_utf8 (digest sha1 content) ≡ true
      → j.is_utf8 (local_path sha1 content) ≡ true
      → j.is_utf8 (oss_root_dir ++ name) ≡ true
      → j.is_utf8 name ≡ true
      → j.is_utf8 username ≡ true
      → j.is_utf8 [] ≡ true
      → ((v : W)
          → (j.is_utf8 (my.uploaded_at v username (digest sha1 content)) ≡ true)
            × (j.is_utf8 (my.updated_at v username (digest sha1 content)) ≡ true))
      → (w' w'' : W) × (do_upload_handler j
            (direct sql clock j laws)
            clock
            files
            stores
            publish
            transfer
            sha1
            format_time
            (ok (record { filename = name; content = ok content }))
            username
            w
          ≡ (ret (json 200 (pos 0) (bytes "上传成功") none), w'))
        × (process_transfer j
              (direct sql clock j laws)
              files
              stores
              transfer
              (transfer.marshal (handover sha1 name content))
              w'
            ≡ (ret true, w''))
        × (download_handler j (direct sql clock j laws) stores (digest sha1 content) username w''
            ≡ (ret (named 200 (bytes "application/octect-stream") name content), w''))
  uploaded_file_downloads username name content b w w₁ w₂ w₃ creates writes publishes leaves
        new_file new_user_file decodes takes disk_apart bucket_apart size fh fn fu ph pa pd pn pu p0
        times =
      let h : Text = digest sha1 content in
      let a : Text = oss_root_dir ++ name in
      let r : FileRow = file_row sha1 name content (local_path sha1 content) in
      let ur : UserFileRow = user_file_row sha1 name content in
      let there =
        leaves
        ∙ disk.writes (local_path sha1 content) [] content w₁ w₂
            (disk.creates (local_path sha1 content) (clock.now w).1 w₁ creates) writes in
      let (w', run, stored, stored') =
        do_upload_handler_lem sql my clock j laws quiet files stores publish transfer sha1
          format_time username name content b w w₁ w₂ w₃ creates writes publishes (omega arith) fh
          fn fu ph pa pn pu in
      let row : (my.view w').files h ≡ some r = stored ∙ rw new_file refl in
      let user_row : (my.view w').user_files username h ≡ some ur =
        stored' ∙ rw new_user_file refl in
      let kept : disk.contents w' (local_path sha1 content) ≡ some content =
        subst (λ (v : W). disk.contents v (local_path sha1 content) ≡ some content)
          (ap (λ (x : Exit (Response (Unit {0})) × W). x.1) run)
          (do_upload_handler-Keeps sql clock j laws
            (λ v. disk.contents v (local_path sha1 content) ≡ some content) disk_apart files stores
            publish transfer sha1 format_time username name content b w w₁ w₂ w₃ creates writes
            publishes (omega arith) ph pa pn pu there) in
      let (v, puts, same_tables) = takes w' in
      let (w'', moves, serves) =
        transferred_file_downloads sql my clock j laws files stores disk bucket transfer
          (transfer.marshal (handover sha1 name content)) username name content
          (handover sha1 name content) r ur w' v decodes refl kept puts same_tables row refl
          (local_is_elsewhere sha1 name content) user_row refl (short_object name fn) fh.0.1 ph pd
          pu
          (record {
            hash = ph;
            name = pn;
            address = pd;
            size = (refl, lt→ltb (length content) (2 ^ 53) size);
          })
          (λ u e.
            subst
              (λ (o : Option UserFileRow).
                IsCarriedUserFile j
                  (found_user_file (my.uploaded_at u username h) (my.updated_at u username h) o))
              (sym e)
              (record {
                user = p0;
                hash = ph;
                name = pn;
                uploaded = (times u).0;
                updated = (times u).1;
                size = (refl, lt→ltb (length content) (2 ^ 53) size);
              }))
          bucket_apart in
      (w', w'', run, moves, serves)
