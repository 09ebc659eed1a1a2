-- ===== src/Dbproxy/Orm/File.antt =====
-- service/dbproxy/orm/file.go: the table of unique files.
pub mod Catalog
use filestore_hsz.Prelude.{
  ℕ, Text, bytes, ℤ, pos, ltb_ℤ, List, [], ◌∷◌, ◌++◌, Option, none, some, if◌then◌else◌,
}
use filestore_hsz.Go.{Result, ok, err, Go, pure, fail, call, ◌>>=◌}
use filestore_hsz.Dbproxy.Sql.{
  Arg, Value, Rows, Sql, scan_text, scan_null_text, scan_null_int, query_row, FirstRow, failed,
  no_rows, row,
}
use filestore_hsz.Dbproxy.Define.{TableFile, ExecResult, failure, success, nil, file, files}
use filestore_hsz.Dbproxy.Orm.Statement.{
  sql_text, insert_file, select_file, select_files, update_location, prepared,
}

-- `Scan` of file_sha1, file_addr, file_name, file_size
scan_file : List Value → Result TableFile
scan_file (h ∷ a ∷ n ∷ s ∷ []) = elim (scan_text h) [
  | err e ↦ err e
  | ok hash ↦ elim (scan_null_int s) [
    | err e ↦ err e
    | ok size ↦ ok (record {
      file_hash = hash;
      file_name = scan_null_text n;
      file_size = size;
      file_addr = scan_null_text a;
    })
  ]
]
scan_file _ = err (bytes "sql: wrong number of destination arguments")

-- What is answered to the rows affected, or to an error; a failed insert has no message.
inserted : Result (Result ℤ) → ExecResult
inserted (err e) = failure []
inserted (ok (err e)) = failure []
inserted (ok (ok n)) = success nil

updated : Result (Result ℤ) → ExecResult
updated (err e) = failure e
updated (ok (err e)) = failure e
updated (ok (ok n)) = if ltb_ℤ (pos 0) n then success nil else failure (bytes "无记录更新")

found_file : FirstRow → ExecResult
found_file (failed e) = failure e
found_file no_rows = success nil
found_file (row v) = elim (scan_file v) [ ok f ↦ success (file f) | err e ↦ failure e ]

-- The loop over the rows breaks at the first one that does not scan.
scan_files : List (List Value) → List TableFile
scan_files [] = []
scan_files (v ∷ vs) =
    let rest = scan_files vs in elim (scan_file v) [ ok f ↦ f ∷ rest | err e ↦ [] ]

-- `rows.Next()` through a nil pointer panics.
listed_files : {W : Type 0} → Result (Option Rows) → Go W ExecResult
listed_files (err e) = pure (failure e)
listed_files (ok none) = fail
listed_files (ok (some r)) = pure (success (files (scan_files r.rows)))

module _ {W : Type 0} (sql : Sql W) where
  unfoldable pub on_file_upload_finished : Text → Text → ℤ → Text → Go W ExecResult
  unfolding prepared inserted
  on_file_upload_finished filehash filename filesize fileaddr =
      prepared sql insert_file (λ _. failure [])
        (do
          ret ← call (
              sql.exec (sql_text insert_file)
                (Arg.text filehash ∷ Arg.text filename ∷ Arg.int filesize ∷ Arg.text fileaddr ∷ []))
          pure (inserted ret))

  unfoldable pub get_file_meta : Text → Go W ExecResult
  unfolding prepared query_row found_file scan_file
  get_file_meta filehash =
      prepared sql select_file failure
        (do r ← query_row sql (sql_text select_file) (Arg.text filehash ∷ []); pure (found_file r))

  unfoldable pub get_file_meta_list : ℤ → Go W ExecResult
  unfolding prepared listed_files scan_files scan_file
  get_file_meta_list limit =
      prepared sql select_files failure
        (do rows ← call (sql.query (sql_text select_files) (Arg.int limit ∷ [])); listed_files rows)

  unfoldable pub update_file_location : Text → Text → Go W ExecResult
  unfolding prepared updated
  update_file_location filehash fileaddr = prepared sql update_location failure (do
    ret ← call (sql.exec (sql_text update_location) (Arg.text fileaddr ∷ Arg.text filehash ∷ []))
    pure (updated ret))
