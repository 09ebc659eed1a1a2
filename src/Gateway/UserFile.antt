-- ===== src/Gateway/UserFile.antt =====
-- service/apiwg/handler/user_file.go: the gateway's handlers for the files of a user.
pub mod Renaming
use filestore_hsz.Prelude.{
  ℕ, Text, bytes, text_eq, length, ℤ, pos, to_int32, List, [], ◌∷◌, not, Bool, ltb, ◌||◌,
  if◌then◌else◌,
}
use filestore_hsz.Go.{Result, ok, err, Go, pure, ◌>>=◌}
use filestore_hsz.Go.Strconv.{atoi, IntResult}
use filestore_hsz.Http.{Response, status, raw}
use filestore_hsz.Account.UserFile.{RespUserFile}
use filestore_hsz.Gateway.User.{UserService}

-- A reply with no data is shown as a default, whatever its code is.
or_default : Text → Text → Text
or_default default_text [] = default_text
or_default default_text (b ∷ file_data) = b ∷ file_data

unfoldable pub shown : Text → Result RespUserFile → Response (Unit {0})
unfolding or_default
shown default_text (err e) = status 500
shown default_text (ok resp) =
    raw 200 (bytes "application/json") (or_default default_text resp.file_data)

module _ {W : Type 0} (user_cli : UserService W) where
  query : ℤ → Text → Text → Go W (Response (Unit {0}))
  query file_status username limit = do
    resp ← user_cli.user_files username file_status (to_int32 (atoi limit).number)
    pure (shown (bytes "[]") resp)

  unfoldable pub file_query_handler : Text → Text → Go W (Response (Unit {0}))
  unfolding query shown
  file_query_handler = query (pos 0)

  unfoldable pub file_query_deleted_handler : Text → Text → Go W (Response (Unit {0}))
  unfolding query shown
  file_query_deleted_handler = query (pos 1)

  unfoldable pub file_meta_update_handler :
      Text → Text → Text → Text → Text → Go W (Response (Unit {0}))
  unfolding shown
  file_meta_update_handler op_type file_sha1 new_file_name username old_filename =
      if not (text_eq op_type (bytes "0")) || ltb (length new_file_name) 1
      then pure (status 403)
      else do
        resp ← user_cli.user_file_rename username file_sha1 new_file_name old_filename
        pure (shown (bytes "[修改文件名成功]") resp)

  set_status : ℤ → Text → Text → Text → Go W (Response (Unit {0}))
  set_status file_status file_sha1 username filename = do
    resp ← user_cli.user_file_delete username file_sha1 filename file_status
    pure (shown (bytes "[]") resp)

  unfoldable pub file_delete_handler : Text → Text → Text → Go W (Response (Unit {0}))
  unfolding set_status shown
  file_delete_handler = set_status (pos 1)

  unfoldable pub file_recover_handler : Text → Text → Text → Go W (Response (Unit {0}))
  unfolding set_status shown
  file_recover_handler = set_status (pos 0)
