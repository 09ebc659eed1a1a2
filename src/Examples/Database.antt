-- ===== src/Examples/Database.antt =====
-- The database's functions on a server in memory.
use filestore_hsz.Dbproxy.Mysql.{ends_in_blank, is_utf8mb3}
use filestore_hsz.Prelude.{
  ◌≡◌, refl, Text, bytes, text_eq, length, pos, [], ◌∷◌, none, some, true, false, All,
  if◌then◌else◌, arith,
}
use filestore_hsz.Go.{ret, ◌>>=◌}
use filestore_hsz.Dbproxy.Sql.{Value, Rows, Clock}
use filestore_hsz.Dbproxy.Define.{failure, success, nil, bool, file, exists}
use filestore_hsz.Dbproxy.Conn.{parse_rows}
use filestore_hsz.Dbproxy.Conn.Aliasing.{parse_rows_shares, merged}
use filestore_hsz.Dbproxy.Mysql.{Tables, FileRow, UserFileRow}
use filestore_hsz.Dbproxy.Orm.User.{user_signup, user_signin}
use filestore_hsz.Dbproxy.Orm.User.Accounts.{signin_after_signup}
use filestore_hsz.Dbproxy.Orm.File.{on_file_upload_finished, get_file_meta, update_file_location}
use filestore_hsz.Dbproxy.Orm.File.Catalog.{get_after_upload, update_file_location_lem, shown_file}
use filestore_hsz.Dbproxy.Orm.UserFile.{on_user_file_upload_finished, is_user_file_uploaded}
use filestore_hsz.Dbproxy.Orm.UserFile.Trash.{uploaded_after_upload}
use filestore_hsz.Examples.Server.{server, server_laws}

abbrev alice : Text
alice = b'a' ∷ b'l' ∷ b'i' ∷ b'c' ∷ b'e' ∷ []

abbrev bob : Text
bob = b'b' ∷ b'o' ∷ b'b' ∷ []

abbrev hash : Text
hash = b'f' ∷ b'0' ∷ []

abbrev notes : Text
notes = b'n' ∷ b'o' ∷ b't' ∷ b'e' ∷ b's' ∷ []

abbrev diary : Text
diary = b'd' ∷ b'i' ∷ b'a' ∷ b'r' ∷ b'y' ∷ []

abbrev disk : Text
disk = b'/' ∷ b'd' ∷ []

abbrev in_trash : UserFileRow
in_trash = record { hash = hash; name = notes; size = pos 7; status = pos 1 }

abbrev stored : FileRow
stored = record { hash = hash; name = notes; size = pos 7; addr = disk; status = pos 0 }

-- Alice has signed up and has a file in her trash.
abbrev tables : Tables
tables = record {
  users = λ u. if text_eq u alice then some bob else none;
  tokens = λ u. none;
  files = λ h. if text_eq h hash then some stored else none;
  user_files = λ u h. some in_trash;
}

abbrev clock : Clock Tables
clock = record { now = λ t. (5, t) }

-- A sign up under a name that is taken leaves the password.
signin_after_signup_example :
    ((user_signup server alice diary >>= λ _. user_signin server alice bob) tables).0
    ≡ ret (success (bool true))
unfolding is_utf8mb3 server_laws text_eq
signin_after_signup_example =
    signin_after_signup server server_laws alice diary bob tables (omega arith, refl)
      (omega arith, refl)

-- The file under that hash is there already, so its row stays.
get_after_upload_example :
    ((on_file_upload_finished server hash diary (pos 9) disk tables).0 ≡ ret (success nil))
    × (((on_file_upload_finished server hash diary (pos 9) disk >>= λ _. get_file_meta server hash)
          tables).0
        ≡ ret (success (file (shown_file stored))))
unfolding is_utf8mb3 ends_in_blank server_laws text_eq
get_after_upload_example =
    get_after_upload server server_laws hash diary (pos 9) disk tables ((omega arith, refl), refl)
      (omega arith, refl) (omega arith, refl) (omega arith)

update_file_location_lem_example :
    (w' : Tables) × (update_file_location server hash notes tables ≡ (ret (success nil), w'))
    × ((update_file_location server hash notes w').0 ≡ ret (failure (bytes "无记录更新")))
unfolding is_utf8mb3 server_laws text_eq
update_file_location_lem_example =
    update_file_location_lem server server_laws hash notes tables (omega arith, refl) refl

-- Uploaded again, and still in the trash.
uploaded_after_upload_example :
    ((on_user_file_upload_finished server clock alice hash notes (pos 7)) tables).0
      ≡ ret (success nil)
    × (((on_user_file_upload_finished server clock alice hash notes (pos 7) >>= λ _.
            is_user_file_uploaded server alice hash)
          tables).0
        ≡ ret (success (exists false)))
unfolding is_utf8mb3 server_laws text_eq
uploaded_after_upload_example =
    uploaded_after_upload server server_laws clock alice hash notes (pos 7) tables
      (omega arith, refl) (omega arith, refl) (omega arith, refl) (omega arith) refl

abbrev two_rows : Rows
two_rows = record {
  columns = hash ∷ [];
  rows = (Value.text alice ∷ []) ∷ (Value.text bob ∷ []) ∷ [];
}

parse_rows_shares_example :
    (length (parse_rows two_rows).1 ≡ 2)
    × All
        (λ a. (parse_rows two_rows).0 a ≡ merged (hash ∷ []) two_rows.rows [])
        (parse_rows two_rows).1
parse_rows_shares_example = parse_rows_shares two_rows
