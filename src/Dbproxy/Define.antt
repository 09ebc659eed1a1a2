-- ===== src/Dbproxy/Define.antt =====
-- service/dbproxy/orm/define.go: the rows of the tables, and the result of an SQL function.
use filestore_hsz.Prelude.{Text, ℤ, pos, List, [], Bool, true, false}
use filestore_hsz.Dbproxy.Sql.{NullText, NullInt}

pub record TableFile : Type 0 where
  pub file_hash : Text
  pub file_name : NullText
  pub file_size : NullInt
  pub file_addr : NullText

pub record TableUser : Type 0 where
  pub username : Text
  pub email : Text
  pub phone : Text
  pub signup_at : Text
  pub last_active_at : Text
  pub status : ℤ

pub record TableUserFile : Type 0 where
  pub user_name : Text
  pub file_hash : Text
  pub file_name : Text
  pub file_size : ℤ
  pub upload_at : Text
  pub last_updated : Text

-- What the program stores in the `interface{}` field `Data`.
pub data Payload : Type 0 where
  nil : Payload
  bool : Bool → Payload
  file : TableFile → Payload
  files : List TableFile → Payload
  user : TableUser → Payload
  user_file : TableUserFile → Payload
  user_files : List TableUserFile → Payload
  exists : Bool → Payload
  token : Text → Payload

pub record ExecResult : Type 0 where
  pub suc : Bool
  pub code : ℤ
  pub msg : Text
  pub payload : Payload

-- `res.Suc = false; res.Msg = msg`, and `res.Suc = true; res.Data = d`, on a zero `ExecResult`
abbrev pub failure : Text → ExecResult
failure msg = record { suc = false; code = pos 0; msg = msg; payload = nil }

abbrev pub success : Payload → ExecResult
success d = record { suc = true; code = pos 0; msg = []; payload = d }

-- The zero values of the structs.
abbrev pub no_text : NullText
no_text = record { string = []; valid = false }

abbrev pub zero_file : TableFile
zero_file = record {
  file_hash = [];
  file_name = no_text;
  file_size = record { int64 = pos 0; valid = false };
  file_addr = no_text;
}

abbrev pub zero_user : TableUser
zero_user = record {
  username = [];
  email = [];
  phone = [];
  signup_at = [];
  last_active_at = [];
  status = pos 0;
}

abbrev pub zero_user_file : TableUserFile
zero_user_file = record {
  user_name = [];
  file_hash = [];
  file_name = [];
  file_size = pos 0;
  upload_at = [];
  last_updated = [];
}
