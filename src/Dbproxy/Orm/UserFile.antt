-- ===== src/Dbproxy/Orm/UserFile.antt =====
-- service/dbproxy/orm/userfile.go: the table of the files of each user.
pub mod Trash
pub mod Shown
use filestore_hsz.Prelude.{ℕ, Text, bytes, ℤ, List, [], ◌∷◌, Option, none, some, true, false}
use filestore_hsz.Go.{Result, ok, err, Go, pure, fail, call, ◌>>=◌}
use filestore_hsz.Dbproxy.Sql.{Arg, Value, Rows, Sql, Clock, scan_text, scan_int}
use filestore_hsz.Dbproxy.Define.{
  TableUserFile, ExecResult, failure, success, user_file, user_files, exists, zero_user_file,
}
use filestore_hsz.Dbproxy.Orm.Statement.{
  sql_text, insert_user_file, select_user_files, update_status, rename_user_file, select_user_file,
  select_uploaded, prepared,
}
use filestore_hsz.Dbproxy.Orm.User.{executed}

-- `Scan` of file_sha1, file_name, file_size, upload_at, last_update
scan_user_file : List Value → Result TableUserFile
scan_user_file (h ∷ n ∷ s ∷ u ∷ l ∷ []) = elim (scan_text h) [
  | err x ↦ err x
  | ok hash ↦ elim (scan_text n) [
    | err x ↦ err x
    | ok name ↦ elim (scan_int s) [
      | err x ↦ err x
      | ok size ↦ elim (scan_text u) [
        | err x ↦ err x
        | ok uploaded ↦ elim (scan_text l) [
          | err x ↦ err x
          | ok last ↦ ok (record zero_user_file {
            file_hash = hash;
            file_name = name;
            file_size = size;
            upload_at = uploaded;
            last_updated = last;
          })
        ]
      ]
    ]
  ]
]
scan_user_file _ = err (bytes "sql: wrong number of destination arguments")

-- The loop over the rows breaks at the first one that does not scan.
scan_user_files : List (List Value) → List TableUserFile
scan_user_files [] = []
scan_user_files (v ∷ vs) =
    let rest = scan_user_files vs in elim (scan_user_file v) [ ok f ↦ f ∷ rest | err e ↦ [] ]

listed : {W : Type 0} → Result (Option Rows) → Go W ExecResult
listed (err e) = pure (failure e)
listed (ok none) = fail
listed (ok (some r)) = pure (success (user_files (scan_user_files r.rows)))

-- With no row the answer is a success that holds a zero struct.
first_user_file : List (List Value) → ExecResult
first_user_file [] = success (user_file zero_user_file)
first_user_file (v ∷ _) = elim (scan_user_file v) [
  | ok f ↦ success (user_file f)
  | err e ↦ failure e
]

found_user_file : {W : Type 0} → Result (Option Rows) → Go W ExecResult
found_user_file (err e) = pure (failure e)
found_user_file (ok none) = fail
found_user_file (ok (some r)) = pure (first_user_file r.rows)

uploaded_rows : Result (Option Rows) → ExecResult
uploaded_rows (err e) = failure e
uploaded_rows (ok none) = success (exists false)
uploaded_rows (ok (some r)) = success (exists (elim r.rows [ [] ↦ false | _ ∷ _ ↦ true ]))

module _ {W : Type 0} (sql : Sql W) where
  unfoldable pub on_user_file_upload_finished : Clock W → Text → Text → Text → ℤ → Go W ExecResult
  unfolding prepared executed
  on_user_file_upload_finished clock username filehash filename filesize =
      prepared sql insert_user_file failure (do
        now ← call clock.now
        ret ← call (
            sql.exec (sql_text insert_user_file) (
              Arg.text username
              ∷ Arg.text filehash
              ∷ Arg.text filename
              ∷ Arg.int filesize
              ∷ Arg.time now
              ∷ []))
        pure (executed ret))

  unfoldable pub query_user_file_metas : Text → ℤ → ℤ → Go W ExecResult
  unfolding prepared listed scan_user_files scan_user_file
  query_user_file_metas username status limit = prepared sql select_user_files failure (do
    rows ← call (
        sql.query (sql_text select_user_files)
          (Arg.text username ∷ Arg.int status ∷ Arg.int limit ∷ []))
    listed rows)

  unfoldable pub delete_user_file : Text → Text → Text → ℤ → Go W ExecResult
  unfolding prepared executed
  delete_user_file username filehash filename status = prepared sql update_status failure (do
    ret ← call (
        sql.exec (sql_text update_status)
          (Arg.int status ∷ Arg.text username ∷ Arg.text filehash ∷ Arg.text filename ∷ []))
    pure (executed ret))

  unfoldable pub rename_file_name : Text → Text → Text → Text → Go W ExecResult
  unfolding prepared executed
  rename_file_name username filehash filename filename_old =
      prepared sql rename_user_file failure (do
        ret ← call (
            sql.exec (sql_text rename_user_file) (
              Arg.text filename
              ∷ Arg.text username
              ∷ Arg.text filehash
              ∷ Arg.text filename_old
              ∷ []))
        pure (executed ret))

  unfoldable pub query_user_file_meta : Text → Text → Go W ExecResult
  unfolding prepared found_user_file first_user_file scan_user_file
  query_user_file_meta username filehash = prepared sql select_user_file failure (do
    rows ← call (sql.query (sql_text select_user_file) (Arg.text username ∷ Arg.text filehash ∷ []))
    found_user_file rows)

  -- The error of `Prepare` is not looked at, and `Query` of a nil statement panics.
  unfoldable pub is_user_file_uploaded : Text → Text → Go W ExecResult
  unfolding uploaded_rows
  is_user_file_uploaded username filehash = do
    e ← call (sql.prepare (sql_text select_uploaded))
    elim e [
      | some m ↦ fail
      | none ↦ do
        rows ←
            call (sql.query (sql_text select_uploaded) (Arg.text username ∷ Arg.text filehash ∷ []))
        pure (uploaded_rows rows)
    ]
