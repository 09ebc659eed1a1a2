-- ===== src/Examples/Server.antt =====
-- A MySQL server in memory: the tables are the world.
use filestore_hsz.Prelude.{
  ◌≡◌, ◌≢◌, refl, true, Text, bytes, text_eq, text_eq_refl, text_eq_iff, ℤ, pos, List, [], ◌∷◌,
  Option, none, some, if◌then◌else◌,
}
use filestore_hsz.Go.{Result, ok, err}
use filestore_hsz.Dbproxy.Sql.{Arg, Value, Rows, Sql}
use filestore_hsz.Dbproxy.Orm.Statement.{
  Statement, sql_text, insert_file, select_file, select_files, update_location, insert_user,
  select_user, replace_token, select_user_info, select_user_exists, select_token, insert_user_file,
  select_user_files, update_status, rename_user_file, select_user_file, select_uploaded,
}
use filestore_hsz.Dbproxy.Mysql.{
  MySql, Tables, added, moved, add_user, set_token, add_file, set_at, with_addr, add_user_file,
  set_user_file, with_status, with_name, file_rows, token_rows, uploaded_rows, exists_rows,
  user_file_rows, user_columns,
}

abbrev all_statements : List Statement
all_statements =
    insert_file ∷ select_file ∷ select_files ∷ update_location ∷ insert_user ∷ select_user
    ∷ replace_token ∷ select_user_info ∷ select_user_exists ∷ select_token ∷ insert_user_file
    ∷ select_user_files ∷ update_status ∷ rename_user_file ∷ select_user_file ∷ select_uploaded ∷ []

find_statement : List Statement → Text → Option Statement
find_statement [] q = none
find_statement (s ∷ ss) q = if text_eq (sql_text s) q then some s else find_statement ss q

unfoldable pub statement_of : Text → Option Statement
unfolding find_statement
statement_of = find_statement all_statements

statement_of-sql_text : (s : Statement) → statement_of (sql_text s) ≡ some s
unfolding statement_of sql_text bytes text_eq
statement_of-sql_text insert_file = refl
statement_of-sql_text _ = refl

-- A server without the table `tbl_filewhere`.
unfoldable pub prepare_statement : Option Statement → Tables → Option Text × Tables
prepare_statement none t = (some (bytes "syntax error"), t)
prepare_statement (some select_files) t = (some (bytes "no such table"), t)
prepare_statement (some _) t = (none, t)

unfoldable pub exec_statement : Option Statement → List Arg → Tables → Result (Result ℤ) × Tables
exec_statement (some insert_user) (Arg.text u ∷ Arg.text p ∷ []) t =
    (ok (ok (added (t.users u))), add_user text_eq u p t)
exec_statement (some replace_token) (Arg.text u ∷ Arg.text k ∷ []) t =
    (ok (ok (pos 1)), set_token text_eq u k t)
exec_statement (some insert_file) (Arg.text h ∷ Arg.text n ∷ Arg.int s ∷ Arg.text a ∷ []) t = (
  ok (ok (added (t.files h))),
  add_file text_eq h (record { hash = h; name = n; size = s; addr = a; status = pos 0 }) t,
)
exec_statement (some update_location) (Arg.text a ∷ Arg.text h ∷ []) t = (
  ok (ok (moved a (t.files h))),
  record t { files = set_at text_eq h (with_addr text_eq a (t.files h)) t.files },
)
exec_statement (some insert_user_file)
      (Arg.text u ∷ Arg.text h ∷ Arg.text n ∷ Arg.int s ∷ Arg.time now ∷ []) t =
    (
      ok (ok (added (t.user_files u h))),
      add_user_file text_eq u h (record { hash = h; name = n; size = s; status = pos 0 }) t,
    )
exec_statement (some update_status) (Arg.int st ∷ Arg.text u ∷ Arg.text h ∷ Arg.text n ∷ []) t =
    (ok (ok (pos 1)), set_user_file text_eq u h (with_status text_eq st n (t.user_files u h)) t)
exec_statement (some rename_user_file) (Arg.text new ∷ Arg.text u ∷ Arg.text h ∷ Arg.text old ∷ [])
      t =
    (ok (ok (pos 1)), set_user_file text_eq u h (with_name text_eq new old (t.user_files u h)) t)
exec_statement s args t = (err (bytes "not supported"), t)

user_rows : Text → Option Text → List (List Value)
user_rows u none = []
user_rows u (some p) = (Value.int (pos 1) ∷ Value.text u ∷ Value.text p ∷ []) ∷ []

abbrev pub a_day : Text
a_day = bytes "2026-01-01 00:00:00"

unfoldable pub query_statement :
    Option Statement → List Arg → Tables → Result (Option Rows) × Tables
unfolding user_rows
query_statement (some select_user) (Arg.text u ∷ []) t =
    (ok (some (record { columns = user_columns; rows = user_rows u (t.users u) })), t)
query_statement (some select_token) (Arg.text u ∷ []) t =
    (ok (some (record { columns = []; rows = token_rows (t.tokens u) })), t)
query_statement (some select_file) (Arg.text h ∷ []) t =
    (ok (some (record { columns = []; rows = file_rows (t.files h) })), t)
query_statement (some select_user_exists) (Arg.text u ∷ []) t =
    (ok (some (record { columns = []; rows = exists_rows (t.users u) })), t)
query_statement (some select_uploaded) (Arg.text u ∷ Arg.text h ∷ []) t =
    (ok (some (record { columns = []; rows = uploaded_rows (t.user_files u h) })), t)
query_statement (some select_user_file) (Arg.text u ∷ Arg.text h ∷ []) t =
    (ok (some (record { columns = []; rows = user_file_rows a_day a_day (t.user_files u h) })), t)
query_statement s args t = (err (bytes "not supported"), t)

abbrev pub server : Sql Tables
server = record {
  prepare = λ q t. prepare_statement (statement_of q) t;
  exec = λ q args t. exec_statement (statement_of q) args t;
  query = λ q args t. query_statement (statement_of q) args t;
}

prepare_found :
    (s : Statement) (t : Tables) → s ≢ select_files → prepare_statement (some s) t ≡ (none, t)
unfolding prepare_statement
prepare_found select_files t h = elim (h refl) [ ]
prepare_found insert_file t h = refl
prepare_found _ t h = refl

pub prepares_lem :
    (s : Statement) (t : Tables) → s ≢ select_files → server.prepare (sql_text s) t ≡ (none, t)
prepares_lem s t h = rw (statement_of-sql_text s) (prepare_found s t h)

pub exec_lem :
    (s : Statement) (args : List Arg) (t : Tables) (x : Result (Result ℤ) × Tables)
    → exec_statement (some s) args t ≡ x
    → server.exec (sql_text s) args t ≡ x
exec_lem s args t x e = rw (statement_of-sql_text s) e

pub query_lem :
    (s : Statement) (args : List Arg) (t : Tables) (x : Result (Option Rows) × Tables)
    → query_statement (some s) args t ≡ x
    → server.query (sql_text s) args t ≡ x
query_lem s args t x e = rw (statement_of-sql_text s) e

pub text_eq_sym : (s t : Text) → text_eq s t ≡ true → text_eq t s ≡ true
text_eq_sym s t h = rw ((text_eq_iff s t).0 h) (text_eq_refl t)

pub text_eq_trans : (r s t : Text) → text_eq r s ≡ true → text_eq s t ≡ true → text_eq r t ≡ true
text_eq_trans r s t g h = rw ((text_eq_iff r s).0 g) h

unfoldable pub server_laws : MySql server
unfolding exec_statement query_statement user_rows
server_laws = record {
  same = text_eq;
  same_self = text_eq_refl;
  same_sym = λ s t h. text_eq_sym s t h;
  same_trans = λ r s t g h. text_eq_trans r s t g h;
  view = λ t. t;
  user_id = λ t u. Value.int (pos 1);
  user_name = λ t u. Value.text u;
  user_rest = λ t u. [];
  uploaded_at = λ t u h. a_day;
  updated_at = λ t u h. a_day;
  names = λ s. [];
  prepares = λ s w h. prepares_lem s w h;
  inserts_user = λ u p w fu fp. (_, exec_lem insert_user _ w _ refl, refl);
  selects_user = λ u p w h. query_lem select_user _ w _ (rw h refl);
  selects_no_user = λ u w h. query_lem select_user _ w _ (rw h refl);
  replaces_token = λ u t w fu ft. (pos 1, _, exec_lem replace_token _ w _ refl, refl);
  selects_token = λ u w. query_lem select_token _ w _ refl;
  inserts_file = λ h n s a w fh fn fa fs. (_, exec_lem insert_file _ w _ refl, refl);
  selects_file = λ h w. query_lem select_file _ w _ refl;
  updates_location = λ a h w fa th. (_, exec_lem update_location _ w _ refl, refl);
  inserts_user_file = λ u h n s now w fu fh fn fs. (_, exec_lem insert_user_file _ w _ refl, refl);
  updates_status = λ st u h n w fs tu th tn. (pos 1, _, exec_lem update_status _ w _ refl, refl);
  renames_user_file =
      λ new u h old w f tu th to. (pos 1, _, exec_lem rename_user_file _ w _ refl, refl);
  selects_user_exists = λ u w. query_lem select_user_exists _ w _ refl;
  selects_uploaded = λ u h w. query_lem select_uploaded _ w _ refl;
  selects_user_file = λ u h w. query_lem select_user_file _ w _ refl;
}
