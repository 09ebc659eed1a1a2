-- ===== src/Mpupload/Session.antt =====
-- test/mpupload: signing in, the checks before an upload, and the requests that begin and complete it.
-- What is printed is left out.
use filestore_hsz.Prelude.{
  Text, bytes, text_eq, length, ℤ, pos, eqb_ℤ, List, [], ◌∷◌, ◌++◌, Option, none, some, Bool, not,
  ◌==◌, ◌||◌, if◌then◌else◌,
}
use filestore_hsz.Go.{Result, ok, err, Go, pure, call, ◌>>=◌}
use filestore_hsz.Go.Strconv.{format_int}
use filestore_hsz.Common.{file_already_exists}
use filestore_hsz.Util.{Shell, compute_sha1_by_shell, compute_file_size_by_shell}

abbrev api_host : Text
api_host = bytes "http://localhost:8080/"

abbrev pub api_user_signin : Text
api_user_signin = api_host ++ bytes "user/signin"

abbrev pub api_upload_init : Text
api_upload_init = api_host ++ bytes "file/mpupload/init"

abbrev pub api_upload_part : Text
api_upload_part = api_host ++ bytes "file/mpupload/uppart"

abbrev pub api_upload_complete : Text
api_upload_complete = api_host ++ bytes "file/mpupload/complete"

abbrev pub api_upload_cancel : Text
api_upload_cancel = api_host ++ bytes "file/mpupload/cancel"

-- `http.PostForm`, and `ioutil.ReadAll` of the body that it returns.
abbrev pub PostForm : Type 0 → Type 0
PostForm W = Text → List (Text × Text) → W → Result (Result Text) × W

-- `MultipartUploadInfo`, as far as it is read.
pub record UploadInitResponse : Type 0 where
  pub chunk_count : ℤ
  pub chunk_exists : List ℤ

-- The JSON of an answer: `jsonit.Get` by a path, which has a zero value for what is not there, and
-- `json.Unmarshal`.
pub record AnswerJson : Type 0 where
  pub text_at : Text → List Text → Text
  pub int_at : Text → List Text → ℤ
  pub unmarshal_init : Text → Result UploadInitResponse

-- `token, err`
pub record SignedIn : Type 0 where
  pub token : Text
  pub error : Option Text

pub record Upload : Type 0 where
  pub username : Text
  pub token : Text
  pub fhash : Text
  pub filesize : ℤ

-- Why a run ends before it uploads: a bad argument, a shell command or the signing in that failed,
-- `os.Exit(-1)`, a file that is there already, or an answer that does not parse.
pub data Stop : Type 0 where
  bad_path bad_credentials shell_failed not_signed_in exits already_there unparsed : Stop

pub data Outcome (A : Type 0) : Type 0 where
  stops : Stop → Outcome A
  goes : A → Outcome A

signed_in_with : AnswerJson → Result (Result Text) → SignedIn
signed_in_with json (err e) = record { token = []; error = some e }
signed_in_with json (ok (err e)) = record { token = []; error = some e }
signed_in_with json (ok (ok body)) =
    if text_eq body (bytes "FAILED")
    then record { token = []; error = none }
    else record { token = json.text_at body (bytes "data" ∷ bytes "Token" ∷ []); error = none }

answered : Result (Result Text) → Outcome Text
answered (err e) = stops exits
answered (ok (err e)) = stops exits
answered (ok (ok body)) = goes body

module _ {W : Type 0} (post_form : PostForm W) (json : AnswerJson) where
  unfoldable pub signin : Text → Text → Go W SignedIn
  unfolding signed_in_with
  signin username password = do
    resp ← call (
        post_form api_user_signin
          ((bytes "username", username) ∷ (bytes "password", password) ∷ []))
    pure (signed_in_with json resp)

  given : Text → Text → ℤ → SignedIn → Outcome Upload
  given username fhash filesize s = elim s.error [
    | some e ↦ stops not_signed_in
    | none ↦
        if text_eq s.token []
        then stops not_signed_in
        else goes
            (record { username = username; token = s.token; fhash = fhash; filesize = filesize })
  ]

  signed : Text → Text → Text → Result ℤ → Go W (Outcome Upload)
  signed username password fhash (err e) = pure (stops shell_failed)
  signed username password fhash (ok filesize) = do
    s ← signin username password
    pure (given username fhash filesize s)

  -- `PathExists`, the arguments, the file's hash and its size, and signing in.
  unfoldable pub prepare :
      (W → Result Bool × W) → Shell W → (path username password : Text) → Go W (Outcome Upload)
  unfolding signed given
  prepare path_exists output path username password = do
    exist ← call path_exists
    elim exist [
      | err e ↦ pure (stops bad_path)
      | ok there ↦
          if not there
          then pure (stops bad_path)
          else if length username == 0 || length password == 0
          then pure (stops bad_credentials)
          else (do
            fhash ← compute_sha1_by_shell output path
            elim fhash [
              | err e ↦ pure (stops shell_failed)
              | ok h ↦ do
                size ← compute_file_size_by_shell output path
                signed username password h size
            ])
    ]

  unless_there : Outcome Text → Outcome Text
  unless_there (stops s) = stops s
  unless_there (goes body) =
      if eqb_ℤ (json.int_at body (bytes "code" ∷ [])) (pos file_already_exists)
      then stops already_there
      else goes body

  -- The answer to the request that begins an upload.
  unfoldable pub begin_upload : Upload → Go W (Outcome Text)
  unfolding answered unless_there
  begin_upload u = do
    resp ← call (
        post_form api_upload_init (
          (bytes "username", u.username)
          ∷ (bytes "token", u.token)
          ∷ (bytes "filehash", u.fhash)
          ∷ (bytes "filesize", format_int u.filesize)
          ∷ []))
    pure (unless_there (answered resp))

  -- The answer to the request that completes an upload. `filename` is the base of the path.
  unfoldable pub complete_upload : Upload → (filename upload_id : Text) → Go W (Outcome Text)
  unfolding answered
  complete_upload u filename upload_id = do
    resp ← call (
        post_form api_upload_complete (
          (bytes "username", u.username)
          ∷ (bytes "token", u.token)
          ∷ (bytes "filehash", u.fhash)
          ∷ (bytes "filesize", format_int u.filesize)
          ∷ (bytes "filename", filename)
          ∷ (bytes "uploadid", upload_id)
          ∷ []))
    pure (answered resp)

  unfoldable pub cancel_upload : Upload → Go W (Outcome Text)
  unfolding answered
  cancel_upload u = do
    resp ← call (
        post_form api_upload_cancel (
          (bytes "username", u.username)
          ∷ (bytes "token", u.token)
          ∷ (bytes "filehash", u.fhash)
          ∷ []))
    pure (answered resp)

-- `tURL`
unfoldable pub part_target : Upload → Text → Text
part_target u upload_id =
    api_upload_part
    ++ bytes "?username="
    ++ u.username
    ++ bytes "&token="
    ++ u.token
    ++ bytes "&uploadid="
    ++ upload_id
