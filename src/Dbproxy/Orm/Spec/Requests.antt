-- ===== src/Dbproxy/Orm/Spec/Requests.antt =====
-- The requests of the abstract machine, and what each answers and does to the tables.
use filestore_hsz.Prelude.{
  ◌≡◌, true, Text, bytes, ℤ, pos, List, [], ◌∷◌, Option, none, some, Bool, true, false,
}
use filestore_hsz.Dbproxy.Define.{ExecResult, failure, success, nil, exists, token}
use filestore_hsz.Dbproxy.Mysql.{
  FitsChar, Fits, IsInt32, IsInt64, is_utf8mb3, Tables, add_user, set_token, add_file, set_at,
  with_addr, add_user_file, set_user_file, with_status, with_name,
}
use filestore_hsz.Dbproxy.Orm.User.Accounts.{signup_answer, verdict}
use filestore_hsz.Dbproxy.Orm.File.Catalog.{catalog_answer, relocation_answer}
use filestore_hsz.Dbproxy.Orm.UserFile.Trash.{is_there}
use filestore_hsz.Dbproxy.Mapper.{Function, Param, text, int}

pub data Request : Type 0 where
  sign_up : (user pwd : Text) → Request
  sign_in : (user pwd : Text) → Request
  store_token : (user key : Text) → Request
  read_token : (user : Text) → Request
  ask_user : (user : Text) → Request
  save_file : (hash name : Text) (size : ℤ) (addr : Text) → Request
  find_file : (hash : Text) → Request
  move_file : (hash addr : Text) → Request
  save_user_file : (user hash name : Text) (size : ℤ) → Request
  change_status : (user hash name : Text) (status : ℤ) → Request
  change_name : (user hash new old : Text) → Request
  ask_uploaded : (user hash : Text) → Request

-- The function of the mapper, and its parameters in order.
abbrev pub function_of : Request → Function
function_of (sign_up u p) = Function.signup
function_of (sign_in u p) = Function.signin
function_of (store_token u k) = Function.token_update
function_of (read_token u) = Function.user_token
function_of (ask_user u) = Function.user_there
function_of (save_file h n s a) = Function.file_upload_finished
function_of (find_file h) = Function.file_meta
function_of (move_file h a) = Function.file_location
function_of (save_user_file u h n s) = Function.user_file_upload_finished
function_of (change_status u h n s) = Function.user_file_delete
function_of (change_name u h n o) = Function.user_file_rename
function_of (ask_uploaded u h) = Function.user_file_uploaded

abbrev pub params_of : Request → List Param
params_of (sign_up u p) = text u ∷ text p ∷ []
params_of (sign_in u p) = text u ∷ text p ∷ []
params_of (store_token u k) = text u ∷ text k ∷ []
params_of (read_token u) = text u ∷ []
params_of (ask_user u) = text u ∷ []
params_of (save_file h n s a) = text h ∷ text n ∷ int s ∷ text a ∷ []
params_of (find_file h) = text h ∷ []
params_of (move_file h a) = text h ∷ text a ∷ []
params_of (save_user_file u h n s) = text u ∷ text h ∷ text n ∷ int s ∷ []
params_of (change_status u h n s) = text u ∷ text h ∷ text n ∷ int s ∷ []
params_of (change_name u h n o) = text u ∷ text h ∷ text n ∷ text o ∷ []
params_of (ask_uploaded u h) = text u ∷ text h ∷ []

-- What is written fits its columns, and the texts that an update compares have characters of at most three bytes.
abbrev pub IsFitting : Request → Type 0
IsFitting (sign_up u p) = Fits u 64 × Fits p 256
IsFitting (store_token u k) = Fits u 64 × FitsChar k 40
IsFitting (save_file h n s a) = FitsChar h 40 × Fits n 256 × Fits a 1024 × IsInt64 s
IsFitting (move_file h a) = Fits a 1024 × (is_utf8mb3 h ≡ true)
IsFitting (save_user_file u h n s) = Fits u 64 × Fits h 64 × Fits n 256 × IsInt64 s
IsFitting (change_status u h n st) =
    IsInt32 st × (is_utf8mb3 u ≡ true) × (is_utf8mb3 h ≡ true) × (is_utf8mb3 n ≡ true)
IsFitting (change_name u h n o) =
    Fits n 256 × (is_utf8mb3 u ≡ true) × (is_utf8mb3 h ≡ true) × (is_utf8mb3 o ≡ true)
IsFitting _ = Unit

abbrev pub token_answer : Option Text → ExecResult
token_answer none = failure (bytes "sql: no rows in result set")
token_answer (some k) = success (token k)

abbrev pub is_user : Option Text → Bool
is_user none = false
is_user (some p) = true

module _ (same : Text → Text → Bool) where
  -- The answer to a request.
  abbrev pub answer_of : Request → Tables → ExecResult
  answer_of (sign_up u p) t = signup_answer (t.users u)
  answer_of (sign_in u p) t = verdict (t.users u) p
  answer_of (store_token u k) t = success nil
  answer_of (read_token u) t = token_answer (t.tokens u)
  answer_of (ask_user u) t = success (exists (is_user (t.users u)))
  answer_of (save_file h n s a) t = success nil
  answer_of (find_file h) t = catalog_answer (t.files h)
  answer_of (move_file h a) t = relocation_answer a (t.files h)
  answer_of (save_user_file u h n s) t = success nil
  answer_of (change_status u h n s) t = success nil
  answer_of (change_name u h n o) t = success nil
  answer_of (ask_uploaded u h) t = success (exists (is_there (t.user_files u h)))

  -- The tables after it.
  abbrev pub effect_of : Request → Tables → Tables
  effect_of (sign_up u p) t = add_user same u p t
  effect_of (store_token u k) t = set_token same u k t
  effect_of (save_file h n s a) t =
      add_file same h (record { hash = h; name = n; size = s; addr = a; status = pos 0 }) t
  effect_of (move_file h a) t = record t {
    files = set_at same h (with_addr same a (t.files h)) t.files;
  }
  effect_of (save_user_file u h n s) t =
      add_user_file same u h (record { hash = h; name = n; size = s; status = pos 0 }) t
  effect_of (change_status u h n s) t =
      set_user_file same u h (with_status same s n (t.user_files u h)) t
  effect_of (change_name u h n o) t =
      set_user_file same u h (with_name same n o (t.user_files u h)) t
  effect_of _ t = t
