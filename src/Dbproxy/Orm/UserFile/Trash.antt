-- ===== src/Dbproxy/Orm/UserFile/Trash.antt =====
-- service/dbproxy/orm/userfile.go over the documented server: uploads, the trash and renaming.
use filestore_hsz.Prelude.{
  ◌≡◌, refl, ap, Text, ℤ, pos, eqb_ℤ, [], ◌∷◌, Option, none, some, get_or, Bool, true, false, arith,
  if◌then◌else◌,
}
use filestore_hsz.Go.{ret, ◌>>=◌}
use filestore_hsz.Dbproxy.Sql.{Sql, Clock}
use filestore_hsz.Dbproxy.Define.{success, nil, exists}
use filestore_hsz.Dbproxy.Mysql.{
  Fits, IsInt32, IsInt64, is_utf8mb3, MySql, Tables, UserFileRow, add_user_file, set_user_file,
  with_name, uploaded_rows,
}
use filestore_hsz.Dbproxy.Orm.Statement.{
  insert_user_file, update_status, rename_user_file, select_uploaded,
}
use filestore_hsz.Dbproxy.Orm.UserFile.{
  on_user_file_upload_finished, delete_user_file, rename_file_name, is_user_file_uploaded,
}

-- A file that is there and not in the trash.
abbrev pub is_there : Option UserFileRow → Bool
is_there none = false
is_there (some r) = eqb_ℤ r.status (pos 0)

some_row :
    (o : Option UserFileRow) → (elim (uploaded_rows o) [ [] ↦ false | _ ∷ _ ↦ true ]) ≡ is_there o
some_row none = refl
some_row (some r) = ground arith

status_if :
    (b : Bool) (st : ℤ) (r : UserFileRow)
    → (if b then record r { status = st } else r).status ≡ (if b then st else r.status)
status_if true st r = refl
status_if false st r = refl

module _ {W : Type 0} (sql : Sql W) (my : MySql sql) where
  -- The question whether a file is uploaded is answered with yes exactly if its row is there with
  -- status 0, and changes nothing. The server is the documented one.
  pub is_user_file_uploaded_lem :
      (u h : Text) (w : W)
      → is_user_file_uploaded sql u h w
        ≡ (ret (success (exists (is_there ((my.view w).user_files u h)))), w)
  unfolding is_user_file_uploaded
  is_user_file_uploaded_lem u h w =
      rw (my.prepares select_uploaded w (λ e. cc), my.selects_uploaded u h w)
        (ap (λ (b : Bool). (ret (success (exists b)), w)) (some_row ((my.view w).user_files u h)))

  set_read :
      (u h : Text) (r : Option UserFileRow) (t : Tables)
      → (set_user_file my.same u h r t).user_files u h ≡ r
  set_read u h r t = rw (my.same_self u, my.same_self h) refl

  -- Where a user has a row for a hash, a change of its status under the row's own name sets the
  -- status, and under another name does not: the file then counts as uploaded exactly when the
  -- status is 0. The server is the documented one.
  pub uploaded_after_delete :
      (u h n : Text) (st : ℤ) (w : W) (r : UserFileRow)
      → IsInt32 st
      → is_utf8mb3 u ≡ true
      → is_utf8mb3 h ≡ true
      → is_utf8mb3 n ≡ true
      → (my.view w).user_files u h ≡ some r
      → ((delete_user_file sql u h n st >>= λ _. is_user_file_uploaded sql u h) w).0
        ≡ ret (success (exists (eqb_ℤ (if my.same r.name n then st else r.status) (pos 0))))
  unfolding delete_user_file
  uploaded_after_delete u h n st w r fst tu th tn there =
      let (k, w', run, stored) = my.updates_status st u h n w fst tu th tn in
      rw
        (
          my.prepares update_status w (λ e. cc),
          run,
          is_user_file_uploaded_lem u h w',
          stored,
          set_read u h _ (my.view w),
          there,
        )
        (ap (λ (b : ℤ). ret (success (exists (eqb_ℤ b (pos 0)))))
          (status_if (my.same r.name n) st r))

  pub first_stays :
      (u h : Text) (r : UserFileRow) (t : Tables)
      → (add_user_file my.same u h r t).user_files u h ≡ some (get_or (t.user_files u h) r)
  first_stays u h r t = ground (arith, my.same_self u, my.same_self h)

  -- An insert of a file of a user always reports success, and a row that is there stays.
  pub on_user_file_upload_finished_lem :
      (clock : Clock W) (u h n : Text) (s : ℤ) (w : W)
      → Fits u 64
      → Fits h 64
      → Fits n 256
      → IsInt64 s
      → (my.view (clock.now w).1 ≡ my.view w)
      → (w' : W) × (on_user_file_upload_finished sql clock u h n s w ≡ (ret (success nil), w'))
        × (my.view w'
            ≡ add_user_file my.same u h
                (record { hash = h; name = n; size = s; status = pos 0 })
                (my.view w))
  unfolding on_user_file_upload_finished
  on_user_file_upload_finished_lem clock u h n s w fu fh fn fs quiet =
      let (w', run, stored) =
        my.inserts_user_file u h n s (clock.now w).0 (clock.now w).1 fu fh fn fs in
      (w', rw (my.prepares insert_user_file w (λ e. cc), run) refl, rw (stored, quiet) refl)

  -- An upload of a file of a user whose size is an int64 and whose texts fit their columns, with characters
  -- of at most three bytes, reports success, but the row that a
  -- name and a hash had before stays: after it the file counts as uploaded unless it was in the
  -- trash, where it stays. The server is the documented one, and reading the clock changes no table.
  pub uploaded_after_upload :
      (clock : Clock W) (u h n : Text) (s : ℤ) (w : W)
      → Fits u 64
      → Fits h 64
      → Fits n 256
      → IsInt64 s
      → (my.view (clock.now w).1 ≡ my.view w)
      → ((on_user_file_upload_finished sql clock u h n s) w).0 ≡ ret (success nil)
        × (((on_user_file_upload_finished sql clock u h n s >>= λ _. is_user_file_uploaded sql u h)
              w).0
            ≡ ret (
                success (
                  exists (
                    eqb_ℤ
                      (get_or
                        ((my.view w).user_files u h)
                        (record { hash = h; name = n; size = s; status = pos 0 })).status
                      (pos 0)))))
  unfolding on_user_file_upload_finished
  uploaded_after_upload clock u h n s w fu fh fn fs quiet =
      let (w', run, stored) =
        my.inserts_user_file u h n s (clock.now w).0 (clock.now w).1 fu fh fn fs in
      (
        rw (my.prepares insert_user_file w (λ e. cc), run) refl,
        rw
            (
              my.prepares insert_user_file w (λ e. cc),
              run,
              is_user_file_uploaded_lem u h w',
              stored,
              first_stays u h _ (my.view (clock.now w).1),
              quiet,
            )
            refl,
      )

  -- A renaming reports success, and writes the row under the new name.
  pub rename_effect :
      (u h new old : Text) (w : W)
      → Fits new 256
      → is_utf8mb3 u ≡ true
      → is_utf8mb3 h ≡ true
      → is_utf8mb3 old ≡ true
      → (w' : W) × (rename_file_name sql u h new old w ≡ (ret (success nil), w'))
        × (my.view w'
            ≡ set_user_file my.same u h
                (with_name my.same new old ((my.view w).user_files u h))
                (my.view w))
  unfolding rename_file_name
  rename_effect u h new old w fits tu th told =
      let (k, w', run, stored) = my.renames_user_file new u h old w fits tu th told in
      (w', rw (my.prepares rename_user_file w (λ e. cc), run) refl, stored)

  -- A renaming to a name that fits its column always reports success, and gives the file its new
  -- name exactly if it is not in the trash and had the old one. The server is the documented one.
  pub rename_file_name_lem :
      (u h new old : Text) (w : W)
      → Fits new 256
      → is_utf8mb3 u ≡ true
      → is_utf8mb3 h ≡ true
      → is_utf8mb3 old ≡ true
      → (w' : W) × (rename_file_name sql u h new old w ≡ (ret (success nil), w'))
        × ((my.view w').user_files u h ≡ with_name my.same new old ((my.view w).user_files u h))
  rename_file_name_lem u h new old w fits tu th told =
      let (w', run, stored) = rename_effect u h new old w fits tu th told in
      (w', run, rw stored (set_read u h _ (my.view w)))
