-- ===== src/Account/UserFile.antt =====
-- service/account/handler/user_file.go: the list, the renaming and the removal of a user's files.
use filestore_hsz.Prelude.{ℕ, Text, ℤ, [], Option, none, some, if◌then◌else◌}
use filestore_hsz.Go.{Result, ok, err, Go, pure, deref, ◌>>=◌}
use filestore_hsz.Common.{status_server_error}
use filestore_hsz.Dbproxy.Json.{Json, Reply}
use filestore_hsz.Dbproxy.Client
use filestore_hsz.Dbproxy.Client.{Stub, WithError}

-- `RespUserFile`, `RespUserFileRename` and `RespUserFileDelete` of user.proto are alike. `code` is 0
-- where the handler sets none.
pub record RespUserFile : Type 0 where
  pub file_data : Text
  pub code : ℕ

abbrev server_error : RespUserFile
server_error = record { file_data = []; code = status_server_error }

module _ {W : Type 0} (j : Json) (stub : Stub j W) where
  marshalled : Result Text → RespUserFile
  marshalled (err e) = server_error
  marshalled (ok json) = record { file_data = json; code = 0 }

  unfoldable pub with_reply : Reply j.Wire → RespUserFile
  unfolding marshalled
  with_reply reply =
      if reply.suc
      then marshalled (j.marshal_user_files (j.to_table_user_files reply.payload))
      else server_error

  -- The handlers end alike: an error of the call is returned, and a reply that is no success is
  -- answered with `err`, which is nil.
  respond : WithError (Option (Reply j.Wire)) → Go W (Result RespUserFile)
  respond r = elim r.error [
    | some e ↦ pure (err e)
    | none ↦ do reply ← deref r.value; pure (ok (with_reply reply))
  ]

  unfoldable pub user_files : Text → ℤ → ℤ → Go W (Result RespUserFile)
  unfolding respond
  user_files username status limit = do
    r ← Client.query_user_file_metas j stub username status limit
    respond r

  unfoldable pub user_file_rename : Text → Text → Text → Text → Go W (Result RespUserFile)
  unfolding respond
  user_file_rename username filehash new_file_name old_filename = do
    r ← Client.rename_file_name j stub username filehash new_file_name old_filename
    respond r

  unfoldable pub user_file_delete : Text → Text → Text → ℤ → Go W (Result RespUserFile)
  unfolding respond
  user_file_delete username filehash filename status = do
    r ← Client.delete_user_file j stub status username filehash filename
    respond r
