-- ===== src/Account/User.antt =====
-- service/account/handler/user.go: sign up, sign in, tokens and user information.
use filestore_hsz.Prelude.{
  ℕ, ◌/◌, ◌^◌, Text, bytes, length, take, ℤ, to_int32, [], ◌++◌, Option, none, some, Bool, false,
  ltb, ◌||◌, if◌then◌else◌,
}
use filestore_hsz.Go.{Go, pure, fail, call, deref, ◌>>=◌}
use filestore_hsz.Go.Strconv.{format_uint}
use filestore_hsz.Common.{
  status_ok, status_param_invalid, status_server_error, status_register_failed, status_login_failed,
  status_user_no_exists, password_salt,
}
use filestore_hsz.Util.{digest}
use filestore_hsz.Dbproxy.Sql.{Clock}
use filestore_hsz.Dbproxy.Define.{TableUser}
use filestore_hsz.Dbproxy.Json.{Json, Reply}
use filestore_hsz.Dbproxy.Client
use filestore_hsz.Dbproxy.Client.{Stub, WithError}

-- `s[:n]`, which panics on a shorter text
unfoldable pub slice_to : {W : Type 0} → ℕ → Text → Go W Text
slice_to n s = if ltb (length s) n then fail else pure (take n s)

-- `time.Now().Unix()`
unfoldable pub unix : {W : Type 0} → Clock W → Go W ℕ
unix clock = do now ← call clock.now; pure (now / 10 ^ 9)

-- The token of a user, for the text of a time: the digest of both, then eight digits of the time.
unfoldable pub gen_token : {W : Type 0} → Clock W → (Text → Text) → Text → Go W Text
unfolding slice_to unix
gen_token clock md5 username = do
  now ← unix clock
  let ts = format_uint 16 now
  stamp ← slice_to 8 ts
  pure (digest md5 (username ++ ts ++ bytes "_tokensalt") ++ stamp)

-- The replies of user.proto, zero but for what a handler sets.
pub record RespSignup : Type 0 where
  pub code : ℕ
  pub message : Text

pub record RespSignin : Type 0 where
  pub code : ℕ
  pub token : Text
  pub message : Text

pub record RespUserInfo : Type 0 where
  pub code : ℕ
  pub message : Text
  pub username : Text
  pub email : Text
  pub phone : Text
  pub signup_at : Text
  pub last_active_at : Text
  pub status : ℤ

-- `err == nil && resp.Suc`; reading through a nil `resp` panics.
unfoldable pub succeeded : {W : Type 0} (j : Json) → WithError (Option (Reply j.Wire)) → Go W Bool
succeeded j r = elim r.error [
  | some e ↦ pure false
  | none ↦ do reply ← deref r.value; pure reply.suc
]

abbrev pub user_info_error : ℕ → Text → RespUserInfo
user_info_error code message = record {
  code = code;
  message = message;
  username = [];
  email = [];
  phone = [];
  signup_at = [];
  last_active_at = [];
  status = ℤ.pos 0;
}

abbrev pub user_info_of : TableUser → RespUserInfo
user_info_of u = record {
  code = status_ok;
  message = [];
  username = u.username;
  email = u.email;
  phone = u.phone;
  signup_at = u.signup_at;
  last_active_at = u.last_active_at;
  status = to_int32 u.status;
}

module _ {W : Type 0} (j : Json) (stub : Stub j W) (clock : Clock W) (sha1 md5 : Text → Text) where
  encrypted : Text → Text
  encrypted passwd = digest sha1 (passwd ++ password_salt)

  unfoldable pub signup : Text → Text → Go W RespSignup
  unfolding succeeded encrypted
  signup username passwd =
      if ltb (length username) 3 || ltb (length passwd) 5
      then pure (record { code = status_param_invalid; message = bytes "请求参数无效" })
      else (do
        resp ← Client.user_signup j stub username (encrypted passwd)
        done ← succeeded j resp
        pure (
            if done
            then record { code = status_ok; message = bytes "注册成功" }
            else record { code = status_register_failed; message = bytes "注册失败" }))

  issue_token : Text → Go W RespSignin
  issue_token username = do
    token ← gen_token clock md5 username
    resp ← Client.update_token j stub username token
    done ← succeeded j resp
    pure (
        if done
        then record { code = status_ok; token = token; message = [] }
        else record { code = status_server_error; token = []; message = [] })

  unfoldable pub signin : Text → Text → Go W RespSignin
  unfolding succeeded encrypted issue_token
  signin username password = do
    resp ← Client.user_signin j stub username (encrypted password)
    done ← succeeded j resp
    if done
        then issue_token username
        else pure (record { code = status_login_failed; token = []; message = bytes "登录失败" })

  described : Reply j.Wire → RespUserInfo
  described reply =
      if reply.suc
      then user_info_of (j.to_table_user reply.payload)
      else user_info_error status_user_no_exists (bytes "用户不存在")

  unfoldable pub user_info : Text → Go W RespUserInfo
  unfolding described
  user_info username = do
    resp ← Client.get_user_info j stub username
    elim resp.error [
      | some e ↦ pure (user_info_error status_server_error (bytes "服务错误"))
      | none ↦ do reply ← deref resp.value; pure (described reply)
    ]
