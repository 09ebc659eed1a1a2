-- ===== src/Dbproxy/Orm/User.antt =====
-- service/dbproxy/orm/user.go: the tables of users and of their tokens.
pub mod Accounts
use filestore_hsz.Prelude.{
  ℕ, Text, bytes, text_eq, ℤ, pos, ltb_ℤ, List, [], ◌∷◌, Option, none, some, true, false,
  if◌then◌else◌,
}
use filestore_hsz.Go.{Result, ok, err, Go, pure, fail, call, ◌>>=◌}
use filestore_hsz.Dbproxy.Sql.{
  Arg, Value, null, Rows, Sql, scan_text, query_row, FirstRow, failed, no_rows, row,
}
use filestore_hsz.Dbproxy.Define.{
  TableUser, ExecResult, failure, success, nil, bool, user, exists, token, zero_user,
}
use filestore_hsz.Dbproxy.Conn.{Heap, lookup, parse_rows}
use filestore_hsz.Dbproxy.Orm.Statement.{
  sql_text, insert_user, select_user, replace_token, select_user_info, select_user_exists,
  select_token, prepared,
}

signed_up : Result (Result ℤ) → ExecResult
signed_up (err e) = failure e
signed_up (ok (err e)) = failure (bytes "无记录更新")
signed_up (ok (ok n)) = if ltb_ℤ (pos 0) n then success nil else failure (bytes "无记录更新")

-- `string(pRows[0]["user_pwd"].([]byte)) == encpwd`; the assertion panics on any other type.
password_matches : {W : Type 0} → Value → Text → Go W ExecResult
password_matches (Value.text pwd) encpwd =
    pure (if text_eq pwd encpwd then success (bool true) else failure (bytes "用户名/密码不匹配"))
password_matches _ encpwd = fail

check_password : {W : Type 0} → Heap → List ℕ → Text → Go W ExecResult
check_password h [] encpwd = pure (failure (bytes "用户名/密码不匹配"))
check_password h (r ∷ _) encpwd = password_matches (lookup (bytes "user_pwd") (h r)) encpwd

unfoldable pub signed_in : {W : Type 0} → Result (Option Rows) → Text → Go W ExecResult
unfolding check_password password_matches parse_rows lookup
signed_in (err e) encpwd = pure (failure e)
signed_in (ok none) encpwd = pure (failure (bytes "用户名未注册"))
signed_in (ok (some rows)) encpwd =
    let (h, records) = parse_rows rows in check_password h records encpwd

-- An `Exec` whose rows affected are not read.
unfoldable pub executed : Result (Result ℤ) → ExecResult
executed (err e) = failure e
executed (ok n) = success nil

-- `Scan` of user_name, signup_at, email, phone, last_active
scan_user : List Value → Result TableUser
scan_user (n ∷ s ∷ e ∷ p ∷ l ∷ []) = elim (scan_text n) [
  | err x ↦ err x
  | ok name ↦ elim (scan_text s) [
    | err x ↦ err x
    | ok signup ↦ elim (scan_text e) [
      | err x ↦ err x
      | ok email ↦ elim (scan_text p) [
        | err x ↦ err x
        | ok phone ↦ elim (scan_text l) [
          | err x ↦ err x
          | ok last ↦ ok (record zero_user {
            username = name;
            signup_at = signup;
            email = email;
            phone = phone;
            last_active_at = last;
          })
        ]
      ]
    ]
  ]
]
scan_user _ = err (bytes "sql: wrong number of destination arguments")

found_user : FirstRow → ExecResult
found_user (failed e) = failure e
found_user no_rows = failure (bytes "sql: no rows in result set")
found_user (row v) = elim (scan_user v) [ ok u ↦ success (user u) | err e ↦ failure e ]

-- `rows.Next()`, which panics through a nil pointer
user_exists : {W : Type 0} → Result (Option Rows) → Go W ExecResult
user_exists (err e) = pure (failure e)
user_exists (ok none) = fail
user_exists (ok (some r)) = pure (success (exists (elim r.rows [ [] ↦ false | _ ∷ _ ↦ true ])))

scan_token : List Value → Result Text
scan_token (t ∷ []) = scan_text t
scan_token _ = err (bytes "sql: wrong number of destination arguments")

found_token : FirstRow → ExecResult
found_token (failed e) = failure e
found_token no_rows = failure (bytes "sql: no rows in result set")
found_token (row v) = elim (scan_token v) [ ok t ↦ success (token t) | err e ↦ failure e ]

module _ {W : Type 0} (sql : Sql W) where
  unfoldable pub user_signup : Text → Text → Go W ExecResult
  unfolding prepared signed_up
  user_signup username passwd = prepared sql insert_user failure (do
    ret ← call (sql.exec (sql_text insert_user) (Arg.text username ∷ Arg.text passwd ∷ []))
    pure (signed_up ret))

  unfoldable pub user_signin : Text → Text → Go W ExecResult
  unfolding prepared
  user_signin username encpwd = prepared sql select_user failure (do
    rows ← call (sql.query (sql_text select_user) (Arg.text username ∷ []))
    signed_in rows encpwd)

  unfoldable pub update_token : Text → Text → Go W ExecResult
  unfolding prepared executed
  update_token username new_token = prepared sql replace_token failure (do
    ret ← call (sql.exec (sql_text replace_token) (Arg.text username ∷ Arg.text new_token ∷ []))
    pure (executed ret))

  unfoldable pub get_user_info : Text → Go W ExecResult
  unfolding prepared query_row found_user scan_user
  get_user_info username = prepared sql select_user_info failure (do
    r ← query_row sql (sql_text select_user_info) (Arg.text username ∷ [])
    pure (found_user r))

  unfoldable pub user_exist : Text → Go W ExecResult
  unfolding prepared user_exists
  user_exist username = prepared sql select_user_exists failure (do
    rows ← call (sql.query (sql_text select_user_exists) (Arg.text username ∷ []))
    user_exists rows)

  unfoldable pub get_user_token : Text → Go W ExecResult
  unfolding prepared query_row found_token scan_token
  get_user_token username =
      prepared sql select_token failure (do
        r ← query_row sql (sql_text select_token) (Arg.text username ∷ [])
        pure (found_token r))
