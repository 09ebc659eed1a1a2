-- ===== src/Transfer/Served.antt =====
-- service/transfer/main.go and service/download/api/download.go together: a file that is transferred is
-- downloaded from OSS as it was.
use mathlib.Core.Path.{subst}
use filestore_hsz.Prelude.{
  ◌≡◌, refl, sym, ap, ◌∙◌, Text, bytes, has_prefix, text_eq, pos, eqb_ℤ, [], ◌∷◌, ◌++◌, Option,
  none, some, true, false,
}
use filestore_hsz.Go.{ok, Exit, ret}
use filestore_hsz.Common.{oss_root_dir}
use filestore_hsz.Http.{named}
use filestore_hsz.Dbproxy.Sql.{Sql, Clock}
use filestore_hsz.Dbproxy.Mysql.{
  Fits, is_utf8mb3, MySql, Tables, FileRow, UserFileRow, set_at, with_addr,
}
use filestore_hsz.Dbproxy.Orm.File.Catalog.{relocation_effect, relocation_answer, shown_file}
use filestore_hsz.Dbproxy.Orm.UserFile.Shown.{users_file, found_user_file}
use filestore_hsz.Dbproxy.Mapper.{text, Function, key_of, num_in, invoke}
use filestore_hsz.Dbproxy.Json.{Json, JsonLaws, Reply, IsCarriedFile, IsCarriedUserFile}
use filestore_hsz.Dbproxy.Client
use filestore_hsz.Dbproxy.Client.{WithError}
use filestore_hsz.Dbproxy.Client.Delivery.{direct, answer, request-key_of}
use filestore_hsz.Dbproxy.Client.Frame.{Apart, client_location-Keeps}
use filestore_hsz.Upload.Services.{Files, Stores, TransferJson}
use filestore_hsz.Mq.{TransferData}
use filestore_hsz.Download.{oss, place_of, serve, download_handler}
use filestore_hsz.Download.Served.{found_file, found-live, download_handler-serve}
use filestore_hsz.Transfer.{process_transfer}
use filestore_hsz.Upload.Disk.{DiskLaws}
use filestore_hsz.Transfer.Storage.{BucketLaws}

place_of-oss : (n : Text) → place_of (oss_root_dir ++ n) ≡ oss
unfolding place_of has_prefix bytes
place_of-oss n = refl

-- The name that a user has for a file with status 0.
name_live :
    (a b : Text) (r : UserFileRow)
    → eqb_ℤ r.status (pos 0) ≡ true
    → (found_user_file a b (some r)).file_name ≡ r.name
name_live a b r live = rw live refl

module _ {W : Type 0} (sql : Sql W) (my : MySql sql) (clock : Clock W) (j : Json)
    (laws : JsonLaws j) where
  -- The tables after the row of a file is pointed elsewhere.
  abbrev pub relocated : Text → Text → Tables → Tables
  relocated h a t = record t { files = set_at my.same h (with_addr my.same a (t.files h)) t.files }

  client_location :
      (h a : Text) (w : W)
      → Fits a 1024
      → is_utf8mb3 h ≡ true
      → j.is_utf8 h ≡ true
      → j.is_utf8 a ≡ true
      → (w' : W) × (Client.update_file_location j (direct sql clock j laws) h a w
          ≡ (ret (answer sql clock j laws (relocation_answer a ((my.view w).files h))), w'))
        × (my.view w' ≡ relocated h a (my.view w))
  unfolding Client.update_file_location num_in key_of invoke
  client_location h a w fits text_ ph pa =
      let (w', run, stored) = relocation_effect sql my h a w fits text_ in
      (
        w',
        request-key_of sql clock j laws Function.file_location (text h ∷ text a ∷ []) w
              (ph, (pa, tt)) refl
            ∙ rw run refl,
        stored,
      )

  module _ (files : Files W) (stores : Stores W) (disk : DiskLaws files)
      (bucket : BucketLaws stores) where
    -- A live row whose address is in OSS, where the object is, is served as that object.
    download_from_oss :
        (h u name content : Text) (r : FileRow) (ur : UserFileRow) (w : W)
        → j.is_utf8 h ≡ true
        → j.is_utf8 u ≡ true
        → (my.view w).files h ≡ some r
        → eqb_ℤ r.status (pos 0) ≡ true
        → r.addr ≡ oss_root_dir ++ name
        → (my.view w).user_files u h ≡ some ur
        → eqb_ℤ ur.status (pos 0) ≡ true
        → IsCarriedFile j (shown_file r)
        → IsCarriedUserFile j (users_file sql my u h w)
        → bucket.objects w (oss_root_dir ++ name) ≡ some content
        → download_handler j (direct sql clock j laws) stores h u w
          ≡ (ret (named 200 (bytes "application/octect-stream") ur.name content), w)
    unfolding serve
    download_from_oss h u name content r ur w ph pu row live at user_row user_live carried carried'
          put =
        let found : found_file ((my.view w).files h) ≡ shown_file r =
          ap found_file row ∙ found-live r live in
        download_handler-serve sql my clock j laws stores h u w ph pu
          (subst (IsCarriedFile j) (sym found) carried) carried'
        ∙ rw
            (
              found,
              at,
              place_of-oss name,
              user_row,
              name_live (my.uploaded_at w u h) (my.updated_at w u h) ur user_live,
              bucket.gets (oss_root_dir ++ name) content w put,
            )
            refl

    -- A message of the queue, for a file that is on the disk with the content that was uploaded and whose
    -- row is there with status 0 and another address: the transfer succeeds, and a download of the file
    -- by a user who has it is then answered with that content, out of OSS, under the user's name for it.
    -- The bucket takes the object, which changes neither the database nor the disk, and the database
    -- changes nothing in the bucket.
    pub transferred_file_downloads :
        (transfer : TransferJson) (msg u name content : Text) (t : TransferData) (r : FileRow)
        (ur : UserFileRow) (w w₁ : W)
        → transfer.unmarshal msg ≡ ok t
        → t.dest_location ≡ oss_root_dir ++ name
        → disk.contents w t.cur_location ≡ some content
        → stores.put_oss (oss_root_dir ++ name) (ok content) w ≡ (ret none, w₁)
        → my.view w₁ ≡ my.view w
        → (my.view w).files t.file_hash ≡ some r
        → eqb_ℤ r.status (pos 0) ≡ true
        → text_eq r.addr (oss_root_dir ++ name) ≡ false
        → (my.view w).user_files u t.file_hash ≡ some ur
        → eqb_ℤ ur.status (pos 0) ≡ true
        → Fits (oss_root_dir ++ name) 1024
        → is_utf8mb3 t.file_hash ≡ true
        → j.is_utf8 t.file_hash ≡ true
        → j.is_utf8 (oss_root_dir ++ name) ≡ true
        → j.is_utf8 u ≡ true
        → IsCarriedFile j (shown_file (record r { addr = oss_root_dir ++ name }))
        → ((v : W)
            → (my.view v).user_files u t.file_hash ≡ some ur
            → IsCarriedUserFile j (users_file sql my u t.file_hash v))
        → Apart sql clock (λ v. bucket.objects v (oss_root_dir ++ name) ≡ some content)
        → (w' : W) × (process_transfer j (direct sql clock j laws) files stores transfer msg w
            ≡ (ret true, w'))
          × (download_handler j (direct sql clock j laws) stores t.file_hash u w'
              ≡ (ret (named 200 (bytes "application/octect-stream") ur.name content), w'))
    unfolding process_transfer
    transferred_file_downloads transfer msg u name content t r ur w w₁ decoded to there puts
          same_tables row live elsewhere user_row user_live fits text_ ph pd pu carried carried'
          apart =
        let (w', run, stored) =
          client_location t.file_hash (oss_root_dir ++ name) w₁ fits text_ ph pd in
        let put : bucket.objects w' (oss_root_dir ++ name) ≡ some content =
          subst (λ (v : W). bucket.objects v (oss_root_dir ++ name) ≡ some content)
            (ap (λ (x : Exit (WithError (Option (Reply j.Wire))) × W). x.1) run)
            (client_location-Keeps sql clock
              (λ v. bucket.objects v (oss_root_dir ++ name) ≡ some content) apart j laws t.file_hash
              (oss_root_dir ++ name) ph pd w₁
              (bucket.puts (oss_root_dir ++ name) content w w₁ puts)) in
        let user_row' : (my.view w').user_files u t.file_hash ≡ some ur =
          ap (λ (x : Tables). x.user_files u t.file_hash)
            (stored ∙ ap (relocated t.file_hash (oss_root_dir ++ name)) same_tables)
          ∙ user_row in
        let row' : (my.view w').files t.file_hash
            ≡ some (record r { addr = oss_root_dir ++ name }) =
          ap (λ (x : Tables). x.files t.file_hash)
            (stored ∙ ap (relocated t.file_hash (oss_root_dir ++ name)) same_tables)
          ∙ rw (my.same_self t.file_hash, row) refl in
        (
          w',
          rw
              (
                decoded,
                disk.opens t.cur_location content w there,
                disk.reads t.cur_location content w there,
                to,
                puts,
                run,
                same_tables,
                row,
                elsewhere,
              )
              refl,
          download_from_oss t.file_hash u name content (record r { addr = oss_root_dir ++ name }) ur
              w' ph pu row' live refl user_row' user_live carried (carried' w' user_row') put,
        )
