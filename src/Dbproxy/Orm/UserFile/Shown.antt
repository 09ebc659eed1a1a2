-- ===== src/Dbproxy/Orm/UserFile/Shown.antt =====
-- service/dbproxy/orm/userfile.go, `QueryUserFileMeta`, over the documented server.
use filestore_hsz.Prelude.{
  ◌≡◌, refl, Text, pos, eqb_ℤ, Option, none, some, Option-cases, Bool-cases, inl, inr,
  if◌then◌else◌,
}
use filestore_hsz.Go.{ret}
use filestore_hsz.Dbproxy.Sql.{Sql, scan_text, scan_int}
use filestore_hsz.Dbproxy.Define.{TableUserFile, success, user_file, zero_user_file}
use filestore_hsz.Dbproxy.Mysql.{MySql, UserFileRow}
use filestore_hsz.Dbproxy.Orm.Statement.{select_user_file}
use filestore_hsz.Dbproxy.Orm.UserFile.{query_user_file_meta}

-- A file of a user that is there with status 0, as the program sees it; for any other, the zero struct.
abbrev pub found_user_file : Text → Text → Option UserFileRow → TableUserFile
found_user_file uploaded updated none = zero_user_file
found_user_file uploaded updated (some r) =
    if eqb_ℤ r.status (pos 0)
    then record zero_user_file {
      file_hash = r.hash;
      file_name = r.name;
      file_size = r.size;
      upload_at = uploaded;
      last_updated = updated;
    }
    else zero_user_file

module _ {W : Type 0} (sql : Sql W) (my : MySql sql) where
  -- What a user's row looks like in a world.
  abbrev pub users_file : Text → Text → W → TableUserFile
  users_file u h w =
      found_user_file (my.uploaded_at w u h) (my.updated_at w u h) ((my.view w).user_files u h)

  -- A query for a file of a user always reports success, with the row if that is there with status 0
  -- and with a zero struct otherwise, and changes nothing. The server is the documented one.
  pub query_user_file_meta_lem :
      (u h : Text) (w : W)
      → query_user_file_meta sql u h w ≡ (ret (success (user_file (users_file u h w))), w)
  unfolding query_user_file_meta scan_text scan_int
  query_user_file_meta_lem u h w = elim (Option-cases ((my.view w).user_files u h)) [
    | inl absent ↦
        rw (my.prepares select_user_file w (λ e. cc), my.selects_user_file u h w, absent) refl
    | inr (r, there) ↦ elim (Bool-cases (eqb_ℤ r.status (pos 0))) [
      | inl live ↦
          rw (my.prepares select_user_file w (λ e. cc), my.selects_user_file u h w, there)
            (rw live refl)
      | inr dead ↦
          rw (my.prepares select_user_file w (λ e. cc), my.selects_user_file u h w, there)
            (rw dead refl)
    ]
  ]
