-- ===== src/Gateway/User.antt =====
-- service/apiwg/handler/user.go: the gateway's handlers for users. The services behind it are called
-- through go-micro clients, which are parameters.
use filestore_hsz.Prelude.{ℕ, Text, bytes, ℤ, pos, not, none, some, ◌==◌, if◌then◌else◌}
use filestore_hsz.Go.{Result, ok, err, Go, pure, fail, ◌>>=◌}
use filestore_hsz.Common.{status_ok}
use filestore_hsz.Http.{Response, status, redirect, json}
use filestore_hsz.Account.User.{RespSignup, RespSignin, RespUserInfo}
use filestore_hsz.Account.UserFile.{RespUserFile}

-- `RespEntry` of upload.proto and download.proto; the servers set only the entry.
pub record RespEntry : Type 0 where
  pub code : ℕ
  pub message : Text
  pub entry : Text

-- The generated clients: a response, or an error and a nil response.
pub record UserService (W : Type 0) : Type 0 where
  pub signup : Text → Text → Go W (Result RespSignup)
  pub signin : Text → Text → Go W (Result RespSignin)
  pub user_info : Text → Go W (Result RespUserInfo)
  pub user_files : Text → ℤ → ℤ → Go W (Result RespUserFile)
  pub user_file_rename : Text → Text → Text → Text → Go W (Result RespUserFile)
  pub user_file_delete : Text → Text → Text → ℤ → Go W (Result RespUserFile)

abbrev pub EntryService : Type 0 → Type 0
EntryService W = Go W (Result RespEntry)

-- `Data` of the answer to a sign in and to a query of user information.
pub data UserData : Type 0 where
  entry : (location username token upload_entry download_entry : Text) → UserData
  info : (username signup_at phone email last_active : Text) → UserData

unfoldable pub signup_handler : Response UserData
signup_handler = redirect 302 (bytes "/static/view/signup.html")

unfoldable pub signin_handler : Response UserData
signin_handler = redirect 302 (bytes "/static/view/signin.html")

module _ {W : Type 0} (user_cli : UserService W) where
  signed_up : Result RespSignup → Response UserData
  signed_up (err e) = status 500
  signed_up (ok resp) = json 200 (pos resp.code) resp.message none

  unfoldable pub do_signup_handler : Text → Text → Go W (Response UserData)
  unfolding signed_up
  do_signup_handler username passwd = do
    resp ← user_cli.signup username passwd
    pure (signed_up resp)

  -- `resp.Entry`, after an error that was only logged
  entry_of : Result RespEntry → Go W Text
  entry_of (err e) = fail
  entry_of (ok resp) = pure resp.entry

  enter : EntryService W → EntryService W → Text → Text → Go W (Response UserData)
  enter up_cli dl_cli username token = do
    up ← up_cli
    dl ← dl_cli
    up_entry ← entry_of up
    dl_entry ← entry_of dl
    pure (
        json 200 (pos status_ok) (bytes "登录成功")
          (some (entry (bytes "/static/view/home.html") username token up_entry dl_entry)))

  after_signin :
      EntryService W → EntryService W → Text → Result RespSignin → Go W (Response UserData)
  after_signin up_cli dl_cli username (err e) = pure (status 500)
  after_signin up_cli dl_cli username (ok resp) =
      if not (resp.code == status_ok)
      then pure (json 200 (pos resp.code) (bytes "登录失败") none)
      else enter up_cli dl_cli username resp.token

  unfoldable pub do_signin_handler :
      EntryService W → EntryService W → Text → Text → Go W (Response UserData)
  unfolding after_signin enter entry_of
  do_signin_handler up_cli dl_cli username password = do
    resp ← user_cli.signin username password
    after_signin up_cli dl_cli username resp

  -- The code of the service's answer is not read.
  shown : Text → Result RespUserInfo → Response UserData
  shown username (err e) = status 500
  shown username (ok resp) =
      json 200 (pos 0) (bytes "OK")
        (some (info username resp.signup_at resp.phone resp.email resp.last_active_at))

  unfoldable pub user_info_handler : Text → Go W (Response UserData)
  unfolding shown
  user_info_handler username = do resp ← user_cli.user_info username; pure (shown username resp)
