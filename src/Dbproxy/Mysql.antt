-- ===== src/Dbproxy/Mysql.antt =====
-- The MySQL server under service/dbproxy/orm, with the schema of doc/table.sql: what its statements are
-- documented to do, as hypotheses over the parameter `Sql`. `view` is what the tables hold.
mod Rows
mod Charset
pub use Charset.{
  Fits, FitsChar, ends_in_blank-append, IsInt32, IsInt64, is_utf8mb3-append, in_range-IsInt64,
}
unfoldable pub use Charset.{is_utf8mb3, ends_in_blank}
pub use Rows.{
  FileRow, UserFileRow, Tables, set_at, add_at, add_user, set_token, add_file, set_user_file,
  add_user_file, with_status, with_name, with_addr, added, moved, other_columns, user_columns,
  file_rows, token_rows, uploaded_rows, exists_rows, user_file_rows,
}
use filestore_hsz.Prelude.{ℕ, ◌≡◌, ◌≢◌, Text, ℤ, pos, List, [], ◌∷◌, none, some, Bool, true}
use filestore_hsz.Go.{ok}
use filestore_hsz.Dbproxy.Sql.{Arg, Value, Sql}
use filestore_hsz.Dbproxy.Orm.Statement.{
  Statement, sql_text, insert_file, select_file, select_files, update_location, insert_user,
  select_user, replace_token, select_token, select_user_exists, insert_user_file, update_status,
  rename_user_file, select_uploaded, select_user_file,
}

pub record MySql {W : Type 0} (sql : Sql W) : Type 0 where
  pub same : Text → Text → Bool
  pub same_self : (t : Text) → same t t ≡ true
  pub same_sym : (s t : Text) → same s t ≡ true → same t s ≡ true
  pub same_trans : (r s t : Text) → same r s ≡ true → same s t ≡ true → same r t ≡ true
  pub view : W → Tables
  -- the columns of a user's row beside the password
  pub user_id : W → Text → Value
  pub user_name : W → Text → Value
  pub user_rest : W → Text → List Value
  -- when a user uploaded the file with a hash, and when its row was last updated
  pub uploaded_at : W → Text → Text → Text
  pub updated_at : W → Text → Text → Text
  -- the columns that a query of one column or of a few has
  pub names : Statement → List Text
  -- every statement but `select_files`, which names a table that is not there
  pub prepares : (s : Statement) (w : W) → s ≢ select_files → sql.prepare (sql_text s) w ≡ (none, w)
  pub inserts_user :
      (u p : Text) (w : W)
      → Fits u 64
      → Fits p 256
      → (w' : W) × (sql.exec (sql_text insert_user) (Arg.text u ∷ Arg.text p ∷ []) w
          ≡ (ok (ok (added ((view w).users u))), w'))
        × (view w' ≡ add_user same u p (view w))
  pub selects_user :
      (u p : Text) (w : W)
      → (view w).users u ≡ some p
      → sql.query (sql_text select_user) (Arg.text u ∷ []) w ≡ (
        ok (
            some (record {
              columns = user_columns;
              rows = (user_id w u ∷ user_name w u ∷ Value.text p ∷ user_rest w u) ∷ [];
            })),
        w,
      )
  pub selects_no_user :
      (u : Text) (w : W)
      → (view w).users u ≡ none
      → sql.query (sql_text select_user) (Arg.text u ∷ []) w
        ≡ (ok (some (record { columns = user_columns; rows = [] })), w)
  pub replaces_token :
      (u t : Text) (w : W)
      → Fits u 64
      → FitsChar t 40
      → (n : ℤ) × (w' : W) × (sql.exec (sql_text replace_token) (Arg.text u ∷ Arg.text t ∷ []) w
          ≡ (ok (ok n), w'))
        × (view w' ≡ set_token same u t (view w))
  pub selects_token :
      (u : Text) (w : W)
      → sql.query (sql_text select_token) (Arg.text u ∷ []) w ≡ (
        ok (some (record { columns = names select_token; rows = token_rows ((view w).tokens u) })),
        w,
      )
  pub inserts_file :
      (h n : Text) (s : ℤ) (a : Text) (w : W)
      → FitsChar h 40
      → Fits n 256
      → Fits a 1024
      → IsInt64 s
      → (w' : W) × (sql.exec
            (sql_text insert_file)
            (Arg.text h ∷ Arg.text n ∷ Arg.int s ∷ Arg.text a ∷ [])
            w
          ≡ (ok (ok (added ((view w).files h))), w'))
        × (view w'
            ≡ add_file same h
                (record { hash = h; name = n; size = s; addr = a; status = pos 0 })
                (view w))
  pub selects_file :
      (h : Text) (w : W)
      → sql.query (sql_text select_file) (Arg.text h ∷ []) w ≡ (
        ok (some (record { columns = names select_file; rows = file_rows ((view w).files h) })),
        w,
      )
  pub updates_location :
      (a h : Text) (w : W)
      → Fits a 1024
      → is_utf8mb3 h ≡ true
      → (w' : W) × (sql.exec (sql_text update_location) (Arg.text a ∷ Arg.text h ∷ []) w
          ≡ (ok (ok (moved a ((view w).files h))), w'))
        × (view w' ≡ record (view w) {
          files = set_at same h (with_addr same a ((view w).files h)) (view w).files;
        })
  pub inserts_user_file :
      (u h n : Text) (s : ℤ) (now : ℕ) (w : W)
      → Fits u 64
      → Fits h 64
      → Fits n 256
      → IsInt64 s
      → (w' : W) × (sql.exec
            (sql_text insert_user_file)
            (Arg.text u ∷ Arg.text h ∷ Arg.text n ∷ Arg.int s ∷ Arg.time now ∷ [])
            w
          ≡ (ok (ok (added ((view w).user_files u h))), w'))
        × (view w'
            ≡ add_user_file same u h
                (record { hash = h; name = n; size = s; status = pos 0 })
                (view w))
  pub updates_status :
      (st : ℤ) (u h n : Text) (w : W)
      → IsInt32 st
      → is_utf8mb3 u ≡ true
      → is_utf8mb3 h ≡ true
      → is_utf8mb3 n ≡ true
      → (k : ℤ) × (w' : W) × (sql.exec
            (sql_text update_status)
            (Arg.int st ∷ Arg.text u ∷ Arg.text h ∷ Arg.text n ∷ [])
            w
          ≡ (ok (ok k), w'))
        × (view w'
            ≡ set_user_file same u h (with_status same st n ((view w).user_files u h)) (view w))
  pub renames_user_file :
      (new u h old : Text) (w : W)
      → Fits new 256
      → is_utf8mb3 u ≡ true
      → is_utf8mb3 h ≡ true
      → is_utf8mb3 old ≡ true
      → (k : ℤ) × (w' : W) × (sql.exec
            (sql_text rename_user_file)
            (Arg.text new ∷ Arg.text u ∷ Arg.text h ∷ Arg.text old ∷ [])
            w
          ≡ (ok (ok k), w'))
        × (view w'
            ≡ set_user_file same u h (with_name same new old ((view w).user_files u h)) (view w))
  pub selects_uploaded :
      (u h : Text) (w : W)
      → sql.query (sql_text select_uploaded) (Arg.text u ∷ Arg.text h ∷ []) w ≡ (
        ok (
            some (record {
              columns = names select_uploaded;
              rows = uploaded_rows ((view w).user_files u h);
            })),
        w,
      )
  pub selects_user_exists :
      (u : Text) (w : W)
      → sql.query (sql_text select_user_exists) (Arg.text u ∷ []) w ≡ (
        ok (
            some (record {
              columns = names select_user_exists;
              rows = exists_rows ((view w).users u);
            })),
        w,
      )
  pub selects_user_file :
      (u h : Text) (w : W)
      → sql.query (sql_text select_user_file) (Arg.text u ∷ Arg.text h ∷ []) w ≡ (
        ok (
            some (record {
              columns = names select_user_file;
              rows =
                  user_file_rows (uploaded_at w u h) (updated_at w u h) ((view w).user_files u h);
            })),
        w,
      )
