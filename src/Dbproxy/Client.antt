-- ===== src/Dbproxy/Client.antt =====
-- service/dbproxy/client/client.go: a typed function for each action of the proxy. The call of the
-- stub is go-micro's, and a parameter.
pub mod Delivery
pub mod Found
pub mod Frame
pub mod Sort
use filestore_hsz.Prelude.{
  Text, bytes, text_eq, ℤ, List, [], ◌∷◌, Option, none, some, Bool, false, if◌then◌else◌,
}
use filestore_hsz.Go.{Result, ok, err, Go, pure, call, ◌>>=◌}
use filestore_hsz.Dbproxy.Define.{TableFile}
use filestore_hsz.Dbproxy.Mapper.{Param, text, int}
use filestore_hsz.Dbproxy.Json.{Json, Reply}
use filestore_hsz.Dbproxy.Rpc.{SingleAction}

pub record FileMeta : Type 0 where
  pub file_sha1 : Text
  pub file_name : Text
  pub file_size : ℤ
  pub location : Text
  pub upload_at : Text

unfoldable pub table_file_to_file_meta : TableFile → FileMeta
table_file_to_file_meta t = record {
  file_sha1 = t.file_hash;
  file_name = t.file_name.string;
  file_size = t.file_size.int64;
  location = t.file_addr.string;
  upload_at = [];
}

-- `dbCli.ExecuteAction`: `Data` of the response, or an error with no response.
abbrev pub Stub : Json → Type 0 → Type 0
Stub j W = List (SingleAction j.Params) → Go W (Result j.Data)

-- A Go `(value, error)` pair, whose value is read whatever the error is.
pub record WithError (A : Type 0) : Type 0 where
  pub value : A
  pub error : Option Text

abbrev pub lookup_text : {A : Type 0} → Text → A → List (Text × A) → A
lookup_text k zero_value [] = zero_value
lookup_text k zero_value ((i, v) ∷ m) = if text_eq i k then v else lookup_text k zero_value m

module _ {W : Type 0} (j : Json) (stub : Stub j W) where
  exec_action : Text → List Param → Go W (Result j.Data)
  exec_action name params = stub (record { name = name; params = j.marshal_params params } ∷ [])

  first_reply : List (Reply j.Wire) → Option (Reply j.Wire)
  first_reply [] = none
  first_reply (r ∷ _) = some r

  parse_body : Result j.Data → Option (Reply j.Wire)
  parse_body (err e) = none
  parse_body (ok body) = if j.no_data body then none else first_reply (j.unmarshal_results body)

  error_part : Result j.Data → Option Text
  error_part (ok _) = none
  error_part (err e) = some e

  -- `res, err := execAction(…); return parseBody(res), err`
  unfoldable pub request : Text → List Param → Go W (WithError (Option (Reply j.Wire)))
  unfolding exec_action parse_body first_reply error_part
  request name params = do
    res ← exec_action name params
    pure (record { value = parse_body res; error = error_part res })

  unfoldable pub get_file_meta : Text → Go W (WithError (Option (Reply j.Wire)))
  unfolding request
  get_file_meta filehash = request (bytes "/file/GetFileMeta") (text filehash ∷ [])

  unfoldable pub get_file_meta_list : ℤ → Go W (WithError (Option (Reply j.Wire)))
  unfolding request
  get_file_meta_list limit = request (bytes "/file/GetFileMetaList") (int limit ∷ [])

  unfoldable pub on_file_upload_finished : FileMeta → Go W (WithError (Option (Reply j.Wire)))
  unfolding request
  on_file_upload_finished m =
      request (bytes "/file/OnFileUploadFinished")
        (text m.file_sha1 ∷ text m.file_name ∷ int m.file_size ∷ text m.location ∷ [])

  unfoldable pub update_file_location : Text → Text → Go W (WithError (Option (Reply j.Wire)))
  unfolding request
  update_file_location filehash location =
      request (bytes "/file/UpdateFileLocation") (text filehash ∷ text location ∷ [])

  unfoldable pub user_signup : Text → Text → Go W (WithError (Option (Reply j.Wire)))
  unfolding request
  user_signup username enc_passwd =
      request (bytes "/user/UserSignup") (text username ∷ text enc_passwd ∷ [])

  unfoldable pub user_signin : Text → Text → Go W (WithError (Option (Reply j.Wire)))
  unfolding request
  user_signin username enc_passwd =
      request (bytes "/user/UserSignin") (text username ∷ text enc_passwd ∷ [])

  unfoldable pub get_user_info : Text → Go W (WithError (Option (Reply j.Wire)))
  unfolding request
  get_user_info username = request (bytes "/user/GetUserInfo") (text username ∷ [])

  unfoldable pub user_exist : Text → Go W (WithError (Option (Reply j.Wire)))
  unfolding request
  user_exist username = request (bytes "/user/UserExist") (text username ∷ [])

  unfoldable pub update_token : Text → Text → Go W (WithError (Option (Reply j.Wire)))
  unfolding request
  update_token username token =
      request (bytes "/user/UpdateToken") (text username ∷ text token ∷ [])

  unfoldable pub query_user_file_meta : Text → Text → Go W (WithError (Option (Reply j.Wire)))
  unfolding request
  query_user_file_meta username filehash =
      request (bytes "/ufile/QueryUserFileMeta") (text username ∷ text filehash ∷ [])

  unfoldable pub query_user_file_metas : Text → ℤ → ℤ → Go W (WithError (Option (Reply j.Wire)))
  unfolding request
  query_user_file_metas username status limit =
      request (bytes "/ufile/QueryUserFileMetas") (text username ∷ int status ∷ int limit ∷ [])

  unfoldable pub on_user_file_upload_finished :
      Text → FileMeta → Go W (WithError (Option (Reply j.Wire)))
  unfolding request
  on_user_file_upload_finished username m =
      request (bytes "/ufile/OnUserFileUploadFinished")
        (text username ∷ text m.file_sha1 ∷ text m.file_name ∷ int m.file_size ∷ [])

  unfoldable pub rename_file_name :
      Text → Text → Text → Text → Go W (WithError (Option (Reply j.Wire)))
  unfolding request
  rename_file_name username filehash filename filename_old =
      request (bytes "/ufile/RenameFileName")
        (text username ∷ text filehash ∷ text filename ∷ text filename_old ∷ [])

  unfoldable pub delete_user_file :
      ℤ → Text → Text → Text → Go W (WithError (Option (Reply j.Wire)))
  unfolding request
  delete_user_file status username filehash filename =
      request (bytes "/ufile/DeleteUserFile")
        (text username ∷ text filehash ∷ text filename ∷ int status ∷ [])

  token_of : Result (List (Text × Text)) → Result Text
  token_of (err e) = err e
  token_of (ok m) = ok (lookup_text (bytes "token") [] m)

  decoded_token : WithError (Option (Reply j.Wire)) → Result Text
  decoded_token r = elim r.error [
    | some e ↦ err e
    | none ↦ elim r.value [ none ↦ ok [] | some reply ↦ token_of (j.to_texts reply.payload) ]
  ]

  unfoldable pub get_user_token : Text → Go W (Result Text)
  unfolding request decoded_token token_of
  get_user_token username = do
    r ← request (bytes "/user/GetUserToken") (text username ∷ [])
    pure (decoded_token r)

  exists_of : Result (List (Text × Bool)) → WithError Bool
  exists_of (err e) = record { value = false; error = some e }
  exists_of (ok m) = record { value = lookup_text (bytes "exists") false m; error = none }

  decoded_exists : WithError (Option (Reply j.Wire)) → WithError Bool
  decoded_exists r = elim r.error [
    | some e ↦ record { value = false; error = some e }
    | none ↦ elim r.value [
      | none ↦ record { value = false; error = none }
      | some reply ↦ exists_of (j.to_bools reply.payload)
    ]
  ]

  unfoldable pub is_user_file_uploaded : Text → Text → Go W (WithError Bool)
  unfolding request decoded_exists exists_of
  is_user_file_uploaded username filehash = do
    r ← request (bytes "/ufile/UserFileUploaded") (text username ∷ text filehash ∷ [])
    pure (decoded_exists r)
