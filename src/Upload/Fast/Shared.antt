-- ===== src/Upload/Fast/Shared.antt =====
-- service/upload/api/upload.go, `TryFastUploadHandler`, over the documented server: a file that the
-- store has, or has not.
use filestore_hsz.Prelude.{◌≡◌, refl, Text, bytes, pos, neg, eqb_ℤ, [], none, some, true}
use filestore_hsz.Go.{ret}
use filestore_hsz.Http.{json}
use filestore_hsz.Dbproxy.Sql.{Sql, Clock}
use filestore_hsz.Dbproxy.Mysql.{Fits, MySql, FileRow, add_user_file}
use filestore_hsz.Dbproxy.Orm.File.Catalog.{shown_file}
use filestore_hsz.Dbproxy.Mapper.{int}
use filestore_hsz.Dbproxy.Json.{Json, JsonLaws, IsPlain, IsCarriedFile}
use filestore_hsz.Dbproxy.Client.{Stub, table_file_to_file_meta}
use filestore_hsz.Dbproxy.Client.Delivery.{direct}
use filestore_hsz.Dbproxy.Client.Found.{client_get_file_meta}
use filestore_hsz.Account.User.{succeeded}
use filestore_hsz.Upload.Simple.Saved.{client_user_file}
use filestore_hsz.Upload.Fast.{try_fast_upload_handler}

module _ {W : Type 0} (sql : Sql W) (my : MySql sql) (clock : Clock W) (j : Json)
    (laws : JsonLaws j) (quiet : (v : W) → my.view (clock.now v).1 ≡ my.view v) where
  abbrev proxy : Stub j W
  proxy = direct sql clock j laws

  -- A fast upload of a file that the store does not have is refused, and changes nothing. The hash
  -- is UTF-8, the server is the documented one and the connection to it delivers.
  pub try_fast_upload_handler_missing :
      (u h name : Text) (w : W)
      → j.is_utf8 h ≡ true
      → (my.view w).files h ≡ none
      → try_fast_upload_handler j proxy u h name w
        ≡ (ret (json 200 (neg 1) (bytes "秒传失败， 请访问普通上传接口") none), w)
  unfolding try_fast_upload_handler
  try_fast_upload_handler_missing u h name w ph absent =
      rw (client_get_file_meta sql my clock j laws h w ph, absent, laws.nil_arrives) refl

  -- A fast upload of a file that the store has with status 0 is answered with a success, and gives
  -- the user a file with the new name and with the hash and the size of the stored row, unless the
  -- user has a row for that hash already, which stays. The texts are UTF-8, of characters of at
  -- most three bytes where they are stored, the stored size is an int64, every field of the stored row
  -- arrives,
  -- the new row fits its columns, reading the clock changes no table, the server is the documented
  -- one and the connection to it delivers.
  pub try_fast_upload_handler_lem :
      (u h name : Text) (r : FileRow) (w : W)
      → j.is_utf8 u ≡ true
      → j.is_utf8 h ≡ true
      → j.is_utf8 name ≡ true
      → IsPlain j (int r.size)
      → IsCarriedFile j (shown_file r)
      → Fits u 64
      → Fits r.hash 64
      → Fits name 256
      → (my.view w).files h ≡ some r
      → eqb_ℤ r.status (pos 0) ≡ true
      → (w' : W) × (try_fast_upload_handler j proxy u h name w
          ≡ (ret (json 200 (pos 0) (bytes "秒传成功") none), w'))
        × (my.view w'
            ≡ add_user_file my.same u r.hash
                (record { hash = r.hash; name = name; size = r.size; status = pos 0 })
                (my.view w))
  unfolding try_fast_upload_handler table_file_to_file_meta succeeded
  try_fast_upload_handler_lem u h name r w pu ph pn ps carried fu fh fn there live =
      let (w', run, stored) =
        client_user_file sql my clock j laws quiet u r.hash name r.addr [] r.size w pu carried.hash
          pn ps fu fh fn in
      (
        w',
        rw
            (
              client_get_file_meta sql my clock j laws h w ph,
              there,
              live,
              laws.file_is_not_nil (shown_file r),
              laws.file_arrives (shown_file r) carried,
              run,
            )
            refl,
        stored,
      )
