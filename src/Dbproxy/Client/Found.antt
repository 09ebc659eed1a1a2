-- ===== src/Dbproxy/Client/Found.antt =====
-- The client's queries for one row, through the connection and the proxy, on the documented server.
use filestore_hsz.Prelude.{◌≡◌, refl, ◌∙◌, Text, [], ◌∷◌, true}
use filestore_hsz.Go.{ret}
use filestore_hsz.Dbproxy.Sql.{Sql, Clock}
use filestore_hsz.Dbproxy.Define.{success, user_file}
use filestore_hsz.Dbproxy.Mysql.{MySql}
use filestore_hsz.Dbproxy.Orm.File.Catalog.{get_file_meta_lem, catalog_answer}
use filestore_hsz.Dbproxy.Orm.UserFile.Shown.{users_file, query_user_file_meta_lem}
use filestore_hsz.Dbproxy.Mapper.{text, Function, key_of, num_in, invoke}
use filestore_hsz.Dbproxy.Json.{Json, JsonLaws}
use filestore_hsz.Dbproxy.Client
use filestore_hsz.Dbproxy.Client.Delivery.{direct, answer, request-key_of}

module _ {W : Type 0} (sql : Sql W) (my : MySql sql) (clock : Clock W) (j : Json)
    (laws : JsonLaws j) where
  pub client_get_file_meta :
      (h : Text) (w : W)
      → j.is_utf8 h ≡ true
      → Client.get_file_meta j (direct sql clock j laws) h w
        ≡ (ret (answer sql clock j laws (catalog_answer ((my.view w).files h))), w)
  unfolding Client.get_file_meta num_in key_of invoke
  client_get_file_meta h w ph =
      request-key_of sql clock j laws Function.file_meta (text h ∷ []) w (ph, tt) refl
      ∙ rw (get_file_meta_lem sql my h w) refl

  pub client_query_user_file_meta :
      (u h : Text) (w : W)
      → j.is_utf8 u ≡ true
      → j.is_utf8 h ≡ true
      → Client.query_user_file_meta j (direct sql clock j laws) u h w
        ≡ (ret (answer sql clock j laws (success (user_file (users_file sql my u h w)))), w)
  unfolding Client.query_user_file_meta num_in key_of invoke
  client_query_user_file_meta u h w pu ph =
      request-key_of sql clock j laws Function.user_file_meta (text u ∷ text h ∷ []) w
        (pu, (ph, tt)) refl
      ∙ rw (query_user_file_meta_lem sql my u h w) refl
