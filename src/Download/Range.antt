-- ===== src/Download/Range.antt =====
-- service/download/api/download.go, `RangeDownloadHandler`, over the documented server.
use filestore_hsz.Prelude.{◌≡◌, refl, ap, Text, ◌++◌, Option, none, some, true}
use filestore_hsz.Go.{ret}
use filestore_hsz.Common.{merge_local_root_dir}
use filestore_hsz.Http.{attachment}
use filestore_hsz.Dbproxy.Sql.{Sql, Clock}
use filestore_hsz.Dbproxy.Mysql.{MySql}
use filestore_hsz.Dbproxy.Orm.UserFile.Shown.{users_file}
use filestore_hsz.Dbproxy.Json.{Json, JsonLaws, IsCarriedUserFile}
use filestore_hsz.Dbproxy.Client.Delivery.{direct}
use filestore_hsz.Dbproxy.Client.Found.{client_get_file_meta, client_query_user_file_meta}
use filestore_hsz.Upload.Services.{Files, Stores}
use filestore_hsz.Download.{Answer, server_error, range_answer, range_download_handler}
use filestore_hsz.Download.Served.{catalog_succeeds}

-- What a request for a range is answered, by the error of opening the file.
abbrev pub sent_file : Text → Text → Option Text → Answer
sent_file h name none = attachment (merge_local_root_dir ++ h) name
sent_file h name (some e) = server_error

module _ {W : Type 0} (sql : Sql W) (my : MySql sql) (clock : Clock W) (j : Json)
    (laws : JsonLaws j) (stores : Stores W) where
  range_answer_lem :
      (h name : Text) (e : Option Text)
      → range_answer j (direct sql clock j laws) stores (merge_local_root_dir ++ h) name e
        ≡ sent_file h name e
  unfolding range_answer
  range_answer_lem h name none = refl
  range_answer_lem h name (some m) = refl

  -- A request for a range is answered with the file of the local directory that the hash of the request
  -- names, and with a server error only if that does not open. The table of files has no say in it: the
  -- file is sent as well where the table has no row for the hash, and where its address is another. The
  -- texts are UTF-8, the rows arrive whole, the server and the codec are the documented ones and the
  -- connection delivers.
  pub range_download_handler_lem :
      (files : Files W) (h u : Text) (e : Option Text) (w w' : W)
      → j.is_utf8 h ≡ true
      → j.is_utf8 u ≡ true
      → IsCarriedUserFile j (users_file sql my u h w)
      → files.open_file (merge_local_root_dir ++ h) w ≡ (e, w')
      → range_download_handler j (direct sql clock j laws) stores files h u w
        ≡ (ret (sent_file h (users_file sql my u h w).file_name e), w')
  unfolding range_download_handler
  range_download_handler_lem files h u e w w' ph pu carried opens =
      rw
        (
          client_get_file_meta sql my clock j laws h w ph,
          client_query_user_file_meta sql my clock j laws u h w pu ph,
          catalog_succeeds j laws ((my.view w).files h),
          laws.user_file_arrives (users_file sql my u h w) carried,
          opens,
        )
        (ap (λ (a : Answer). (ret a, w'))
          (range_answer_lem h (users_file sql my u h w).file_name e))
