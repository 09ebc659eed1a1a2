-- ===== src/Mpupload/Main.antt =====
-- test/mpupload: a whole run of the client, from its checks to the request that completes or cancels the
-- upload.
use filestore_hsz.Prelude.{Text, text_eq, ℤ, [], Bool, if◌then◌else◌}
use filestore_hsz.Go.{Result, Go, pure, ◌>>=◌, ◌>>◌}
use filestore_hsz.Util.{Shell}
use filestore_hsz.Mpupload.Session.{
  PostForm, AnswerJson, Stop, Outcome, stops, goes, complete_upload, cancel_upload,
}
use filestore_hsz.Mpupload.Runs.{Case, Parts, run}

-- How a run ends: before it uploads, with the usage, without a last request, or with the answer to that.
pub data Ending : Type 0 where
  stopped : Stop → Ending
  shows_usage no_upload : Ending
  answers : Outcome Text → Ending

module _ {W : Type 0} (post_form : PostForm W) (json : AnswerJson) (filename : Text) where
  completing : Parts → Go W Ending
  completing p = do
    body ← complete_upload post_form json p.upload filename p.upload_id
    pure (answers body)

  -- The last request. The id of the upload is looked at only in a resumable run.
  last_request : Case → Parts → Go W Ending
  last_request Case.normal p = completing p
  last_request Case.cancel p = do body ← cancel_upload post_form json p.upload; pure (answers body)
  last_request Case.resume p = if text_eq p.upload_id [] then pure no_upload else completing p
  last_request Case.usage p = pure shows_usage

  module _ (tcase : Case) (limit : ℤ)
      -- `uploadPartsSpecified`, whose error is not looked at
      (upload_parts : Parts → Go W (Unit {0})) where
    upload_then : Outcome Parts → Go W Ending
    upload_then (stops s) = pure (stopped s)
    upload_then (goes p) = do upload_parts p; last_request tcase p

    test_main : (W → Result Bool × W) → Shell W → (path username password : Text) → Go W Ending
    test_main path_exists output path username password = do
      parts ← run post_form json tcase limit path_exists output path username password
      upload_then parts

    by_case : Case → (W → Result Bool × W) → Shell W → (path username password : Text) → Go W Ending
    by_case Case.usage path_exists output path username password = pure shows_usage
    by_case Case.normal path_exists output path username password =
        test_main path_exists output path username password
    by_case Case.cancel path_exists output path username password =
        test_main path_exists output path username password
    by_case Case.resume path_exists output path username password =
        test_main path_exists output path username password

    unfoldable pub main :
        (W → Result Bool × W) → Shell W → (path username password : Text) → Go W Ending
    unfolding by_case test_main upload_then last_request completing
    main = by_case tcase
