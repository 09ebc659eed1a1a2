-- ===== src/Dbproxy/Orm/Statement.antt =====
-- The SQL texts of service/dbproxy/orm, as the source concatenates them.
use filestore_hsz.Prelude.{Text, bytes, none, some, ◌++◌}
use filestore_hsz.Go.{Go, pure, call, ◌>>=◌}
use filestore_hsz.Dbproxy.Sql.{Sql}
use filestore_hsz.Dbproxy.Define.{ExecResult}

pub data Statement : Type 0 where
  insert_file select_file select_files update_location : Statement
  insert_user select_user replace_token select_user_info select_user_exists select_token : Statement
  insert_user_file select_user_files update_status rename_user_file : Statement
  select_user_file select_uploaded : Statement

unfoldable pub sql_text : Statement → Text
sql_text insert_file =
    bytes "insert ignore into tbl_file (`file_sha1`, `file_name`, `file_size`, "
    ++ bytes "`file_addr`, `status`) values (?,?,?,?,0)"
sql_text select_file =
    bytes "select file_sha1, file_addr, file_name, file_size from tbl_file "
    ++ bytes "where file_sha1=? and status=0 limit 1"
sql_text select_files =
    bytes "select file_sha1, file_addr, file_name, file_size from tbl_file"
    ++ bytes "where status=0 limit ?"
sql_text update_location = bytes "update tbl_file set `file_addr`=? where `file_sha1`=? limit 1"
sql_text insert_user = bytes "insert ignore into tbl_user (`user_name`, `user_pwd`) values (?,?)"
sql_text select_user = bytes "select * from tbl_user where user_name=? limit 1"
sql_text replace_token = bytes "replace into tbl_user_token (`user_name`,`user_token`) values (?,?)"
sql_text select_user_info =
    bytes
      "select user_name, signup_at, email, phone, last_active from tbl_user where user_name=? limit 1"
sql_text select_user_exists = bytes "select 1 from tbl_user where user_name=? limit 1"
sql_text select_token = bytes "select user_token from tbl_user_token where user_name=? limit 1"
sql_text insert_user_file =
    bytes "insert ignore into tbl_user_file (`user_name`, `file_sha1`, `file_name`, "
    ++ bytes "`file_size`, `upload_at`, `status`) values (?,?,?,?,?,0)"
sql_text select_user_files =
    bytes "select file_sha1, file_name, file_size, upload_at,"
    ++ bytes "last_update from tbl_user_file where user_name=? and status=? limit ?"
sql_text update_status =
    bytes
      "update tbl_user_file set status=? where user_name=? and file_sha1=? and file_name=? limit 1"
sql_text rename_user_file =
    bytes
      "update tbl_user_file set file_name=? where user_name=? and file_sha1=? and status=0 and file_name=? limit 1"
sql_text select_user_file =
    bytes "select file_sha1, file_name, file_size, upload_at,"
    ++ bytes "last_update from tbl_user_file where user_name=? and file_sha1=? and status=0 limit 1"
sql_text select_uploaded =
    bytes "select 1 from tbl_user_file where user_name=? and file_sha1=? and status=0 limit 1"

-- `stmt, err := DBConn().Prepare(…)`, and the early return on its error.
unfoldable pub prepared :
    {W : Type 0} → Sql W → Statement → (Text → ExecResult) → Go W ExecResult → Go W ExecResult
prepared sql s on_error body = do
  e ← call (sql.prepare (sql_text s))
  elim e [ none ↦ body | some m ↦ pure (on_error m) ]
