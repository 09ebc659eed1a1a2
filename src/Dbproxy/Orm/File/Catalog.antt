-- ===== src/Dbproxy/Orm/File/Catalog.antt =====
-- service/dbproxy/orm/file.go over the documented server: the table of unique files.
use filestore_hsz.Prelude.{
  ◌≡◌, refl, ap, Text, bytes, text_eq, text_eq_refl, ℤ, pos, eqb_ℤ, Option, none, some, get_or,
  true, arith, if◌then◌else◌, Option-cases, Bool-cases, inl, inr,
}
use filestore_hsz.Go.{ret, ok, ◌>>=◌}
use filestore_hsz.Dbproxy.Sql.{Sql, scan_text, scan_null_text, scan_null_int}
use filestore_hsz.Dbproxy.Define.{TableFile, ExecResult, failure, success, nil, file}
use filestore_hsz.Dbproxy.Mysql.{
  FitsChar, Fits, IsInt64, is_utf8mb3, MySql, Tables, FileRow, add_file, moved, with_addr, set_at,
}
use filestore_hsz.Dbproxy.Orm.Statement.{insert_file, select_file, update_location}
use filestore_hsz.Dbproxy.Orm.File.{
  on_file_upload_finished, get_file_meta, update_file_location, updated,
}

-- A row as the program sees it.
abbrev pub shown_file : FileRow → TableFile
shown_file r = record {
  file_hash = r.hash;
  file_name = record { string = r.name; valid = true };
  file_size = record { int64 = r.size; valid = true };
  file_addr = record { string = r.addr; valid = true };
}

-- A file that is there and whose status is 0; any other is answered as a success with no data.
abbrev pub catalog_answer : Option FileRow → ExecResult
catalog_answer none = success nil
catalog_answer (some r) =
    if eqb_ℤ r.status (pos 0) then success (file (shown_file r)) else success nil

-- What an update of a location answers: a success only if a row is there and its address changes.
abbrev pub relocation_answer : Text → Option FileRow → ExecResult
relocation_answer a none = failure (bytes "无记录更新")
relocation_answer a (some r) = if text_eq r.addr a then failure (bytes "无记录更新") else success nil

module _ {W : Type 0} (sql : Sql W) (my : MySql sql) where
  -- A query for a file answers with its row if that is there with status 0, else with a success
  -- without data, and changes nothing. The server is the documented one.
  pub get_file_meta_lem :
      (h : Text) (w : W) → get_file_meta sql h w ≡ (ret (catalog_answer ((my.view w).files h)), w)
  unfolding get_file_meta scan_text scan_null_text scan_null_int
  get_file_meta_lem h w = elim (Option-cases ((my.view w).files h)) [
    | inl absent ↦ rw (my.prepares select_file w (λ e. cc), my.selects_file h w, absent) refl
    | inr (r, there) ↦ elim (Bool-cases (eqb_ℤ r.status (pos 0))) [
      | inl live ↦
          rw (my.prepares select_file w (λ e. cc), my.selects_file h w, there) (rw live refl)
      | inr dead ↦
          rw (my.prepares select_file w (λ e. cc), my.selects_file h w, there) (rw dead refl)
    ]
  ]

  pub first_stays :
      (h : Text) (r : FileRow) (t : Tables)
      → (add_file my.same h r t).files h ≡ some (get_or (t.files h) r)
  first_stays h r t = ground (arith, my.same_self h)

  -- An insert of a file always reports success, and a row that is there stays.
  pub on_file_upload_finished_lem :
      (h n : Text) (s : ℤ) (a : Text) (w : W)
      → FitsChar h 40
      → Fits n 256
      → Fits a 1024
      → IsInt64 s
      → (w' : W) × (on_file_upload_finished sql h n s a w ≡ (ret (success nil), w'))
        × (my.view w'
            ≡ add_file my.same h
                (record { hash = h; name = n; size = s; addr = a; status = pos 0 })
                (my.view w))
  unfolding on_file_upload_finished
  on_file_upload_finished_lem h n s a w fh fn fa fs =
      let (w', run, stored) = my.inserts_file h n s a w fh fn fa fs in
      (w', rw (my.prepares insert_file w (λ e. cc), run) refl, stored)

  -- An insert of a file whose size is an int64 and whose texts fit their columns, with characters of at
  -- most three bytes, reports success, and the query then answers by
  -- the row that the hash had before, if it had one, and else by the new one. The server is the
  -- documented one.
  pub get_after_upload :
      (h n : Text) (s : ℤ) (a : Text) (w : W)
      → FitsChar h 40
      → Fits n 256
      → Fits a 1024
      → IsInt64 s
      → ((on_file_upload_finished sql h n s a w).0 ≡ ret (success nil))
        × (((on_file_upload_finished sql h n s a >>= λ _. get_file_meta sql h) w).0
            ≡ ret (
                catalog_answer (
                  some (
                    get_or
                      ((my.view w).files h)
                      (record { hash = h; name = n; size = s; addr = a; status = pos 0 })))))
  unfolding on_file_upload_finished
  get_after_upload h n s a w fh fn fa fs =
      let (w', run, stored) = my.inserts_file h n s a w fh fn fa fs in
      (
        rw (my.prepares insert_file w (λ e. cc), run) refl,
        rw
            (
              my.prepares insert_file w (λ e. cc),
              run,
              get_file_meta_lem h w',
              stored,
              first_stays h _ (my.view w),
            )
            refl,
      )

  updated-moved :
      (a : Text) (o : Option FileRow) → updated (ok (ok (moved a o))) ≡ relocation_answer a o
  unfolding updated
  updated-moved a none = refl
  updated-moved a (some r) = ground arith

  updated-again :
      (a : Text) (o : Option FileRow)
      → updated (ok (ok (moved a (with_addr my.same a o)))) ≡ failure (bytes "无记录更新")
  unfolding updated
  updated-again a none = refl
  updated-again a (some r) = rw (text_eq_refl a) refl

  -- An update of a location answers by the row that was there, and sets its address.
  pub relocation_effect :
      (h a : Text) (w : W)
      → Fits a 1024
      → is_utf8mb3 h ≡ true
      → (w' : W) × (update_file_location sql h a w
          ≡ (ret (relocation_answer a ((my.view w).files h)), w'))
        × (my.view w' ≡ record (my.view w) {
          files = set_at my.same h (with_addr my.same a ((my.view w).files h)) (my.view w).files;
        })
  unfolding update_file_location
  relocation_effect h a w fits text =
      let (w', run, stored) = my.updates_location a h w fits text in
      (
        w',
        rw (my.prepares update_location w (λ e. cc), run)
            (ap (λ (r : ExecResult). (ret r, w')) (updated-moved a ((my.view w).files h))),
        stored,
      )

  -- An update of a location to an address that fits its column, both texts with characters of at most
  -- three bytes, succeeds exactly when a row is there
  -- and its address changes: a second update to the same address is answered as a failure. The
  -- server is the documented one.
  pub update_file_location_lem :
      (h a : Text) (w : W)
      → Fits a 1024
      → is_utf8mb3 h ≡ true
      → (w' : W) × (update_file_location sql h a w
          ≡ (ret (relocation_answer a ((my.view w).files h)), w'))
        × ((update_file_location sql h a w').0 ≡ ret (failure (bytes "无记录更新")))
  unfolding update_file_location
  update_file_location_lem h a w fits text =
      let (w', run, stored) = my.updates_location a h w fits text in
      let (w'', run', stored') = my.updates_location a h w' fits text in
      (
        w',
        rw (my.prepares update_location w (λ e. cc), run)
            (ap (λ (r : ExecResult). (ret r, w')) (updated-moved a ((my.view w).files h))),
        rw (my.prepares update_location w' (λ e. cc), run', stored, my.same_self h)
            (ap (λ (r : ExecResult). ret r) (updated-again a ((my.view w).files h))),
      )
