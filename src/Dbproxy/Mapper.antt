-- ===== src/Dbproxy/Mapper.antt =====
-- service/dbproxy/mapper/mapper.go: an SQL function is called by its name.
use filestore_hsz.Prelude.{
  ℕ, Text, bytes, text_eq, length, ℤ, List, [], ◌∷◌, Option, none, some, not, ◌==◌, if◌then◌else◌,
}
use filestore_hsz.Go.{Result, ok, err, Go, pure, fail, ◌>>=◌}
use filestore_hsz.Dbproxy.Sql.{Sql, Clock}
use filestore_hsz.Dbproxy.Define.{ExecResult}
use filestore_hsz.Dbproxy.Orm.File.{
  on_file_upload_finished, get_file_meta, get_file_meta_list, update_file_location,
}
use filestore_hsz.Dbproxy.Orm.User.{
  user_signup, user_signin, update_token, get_user_info, user_exist, get_user_token,
}
use filestore_hsz.Dbproxy.Orm.UserFile.{
  on_user_file_upload_finished, query_user_file_metas, delete_user_file, rename_file_name,
  query_user_file_meta, is_user_file_uploaded,
}

-- A parameter of a call: a string, an int64, a number as JSON writes it, or anything else.
pub data Param : Type 0 where
  text : Text → Param
  int : ℤ → Param
  number : Text → Param
  other : Param

-- The functions of the map `funcs`.
pub data Function : Type 0 where
  file_upload_finished file_meta file_meta_list file_location : Function
  signup signin token_update user_info user_there user_token : Function
  user_file_upload_finished user_file_metas user_file_delete user_file_rename : Function
  user_file_meta user_file_uploaded : Function

-- The keys of `funcs`.
unfoldable pub key_of : Function → Text
key_of file_upload_finished = bytes "/file/OnFileUploadFinished"
key_of file_meta = bytes "/file/GetFileMeta"
key_of file_meta_list = bytes "/file/GetFileMetaList"
key_of file_location = bytes "/file/UpdateFileLocation"
key_of signup = bytes "/user/UserSignup"
key_of signin = bytes "/user/UserSignin"
key_of token_update = bytes "/user/UpdateToken"
key_of user_info = bytes "/user/GetUserInfo"
key_of user_there = bytes "/user/UserExist"
key_of user_token = bytes "/user/GetUserToken"
key_of user_file_upload_finished = bytes "/ufile/OnUserFileUploadFinished"
key_of user_file_metas = bytes "/ufile/QueryUserFileMetas"
key_of user_file_delete = bytes "/ufile/DeleteUserFile"
key_of user_file_rename = bytes "/ufile/RenameFileName"
key_of user_file_meta = bytes "/ufile/QueryUserFileMeta"
key_of user_file_uploaded = bytes "/ufile/UserFileUploaded"

abbrev all_functions : List Function
all_functions =
    file_upload_finished ∷ file_meta ∷ file_meta_list ∷ file_location ∷ signup ∷ signin
    ∷ token_update ∷ user_info ∷ user_there ∷ user_token ∷ user_file_upload_finished
    ∷ user_file_metas ∷ user_file_delete ∷ user_file_rename ∷ user_file_meta ∷ user_file_uploaded
    ∷ []

find_function : List Function → Text → Option Function
find_function [] name = none
find_function (f ∷ fs) name = if text_eq (key_of f) name then some f else find_function fs name

-- `funcs[name]`
unfoldable pub funcs : Text → Option Function
unfolding key_of find_function
funcs = find_function all_functions

-- `f.Type().NumIn()`
unfoldable pub num_in : Function → ℕ
num_in file_upload_finished = 4
num_in file_meta = 1
num_in file_meta_list = 1
num_in file_location = 2
num_in signup = 2
num_in signin = 2
num_in token_update = 2
num_in user_info = 1
num_in user_there = 1
num_in user_token = 1
num_in user_file_upload_finished = 4
num_in user_file_metas = 3
num_in user_file_delete = 4
num_in user_file_rename = 4
num_in user_file_meta = 2
num_in user_file_uploaded = 2

module _ {W : Type 0} (sql : Sql W) (clock : Clock W) where
  -- `f.Call(in)`, which panics if a parameter has another type.
  unfoldable pub invoke : Function → List Param → Go W ExecResult
  invoke file_upload_finished (text h ∷ text n ∷ int s ∷ text a ∷ []) =
      on_file_upload_finished sql h n s a
  invoke file_meta (text h ∷ []) = get_file_meta sql h
  invoke file_meta_list (int n ∷ []) = get_file_meta_list sql n
  invoke file_location (text h ∷ text a ∷ []) = update_file_location sql h a
  invoke signup (text u ∷ text p ∷ []) = user_signup sql u p
  invoke signin (text u ∷ text p ∷ []) = user_signin sql u p
  invoke token_update (text u ∷ text t ∷ []) = update_token sql u t
  invoke user_info (text u ∷ []) = get_user_info sql u
  invoke user_there (text u ∷ []) = user_exist sql u
  invoke user_token (text u ∷ []) = get_user_token sql u
  invoke user_file_upload_finished (text u ∷ text h ∷ text n ∷ int s ∷ []) =
      on_user_file_upload_finished sql clock u h n s
  invoke user_file_metas (text u ∷ int s ∷ int l ∷ []) = query_user_file_metas sql u s l
  invoke user_file_delete (text u ∷ text h ∷ text n ∷ int s ∷ []) = delete_user_file sql u h n s
  invoke user_file_rename (text u ∷ text h ∷ text n ∷ text o ∷ []) = rename_file_name sql u h n o
  invoke user_file_meta (text u ∷ text h ∷ []) = query_user_file_meta sql u h
  invoke user_file_uploaded (text u ∷ text h ∷ []) = is_user_file_uploaded sql u h
  invoke f params = fail

  checked_invoke : Function → List Param → Go W (Result ExecResult)
  checked_invoke f params =
      if not (length params == num_in f)
      then pure (err (bytes "传入参数数量与被调用方法要求的数量不一致."))
      else (do r ← invoke f params; pure (ok r))

  unfoldable pub func_call : Text → List Param → Go W (Result ExecResult)
  unfolding checked_invoke
  func_call name params = elim (funcs name) [
    | none ↦ pure (err (bytes "函数名不存在."))
    | some f ↦ checked_invoke f params
  ]
