-- ===== src/Download/Served.antt =====
-- service/download/api/download.go, `DownloadHandler`, over the documented server: what a user is sent.
use mathlib.Core.Path.{subst}
use filestore_hsz.Prelude.{
  bytes, has_prefix, [], ◌∙◌, ◌≡◌, refl, Text, pos, eqb_ℤ, Option, none, some, true, Bool-cases,
  inl, inr, if◌then◌else◌,
}
use filestore_hsz.Dbproxy.Sql.{Sql, Clock}
use filestore_hsz.Dbproxy.Define.{TableFile, zero_file}
use filestore_hsz.Dbproxy.Mysql.{MySql, FileRow}
use filestore_hsz.Dbproxy.Orm.File.Catalog.{shown_file, catalog_answer}
use filestore_hsz.Dbproxy.Orm.UserFile.Shown.{users_file}
use filestore_hsz.Dbproxy.Json.{Json, JsonLaws, IsCarriedFile, IsCarriedUserFile}
use filestore_hsz.Dbproxy.Client.Delivery.{direct}
use filestore_hsz.Dbproxy.Client.Found.{client_get_file_meta, client_query_user_file_meta}
use filestore_hsz.Upload.Services.{Stores}
use filestore_hsz.Http.{raw, named, attachment}
use filestore_hsz.Common.{merge_local_root_dir, ceph_root_dir, oss_root_dir}
use filestore_hsz.Go.{Result, ok, err, Exit, ret, panic}
use filestore_hsz.Go.Laws.{Result-cases, end-cases}
use filestore_hsz.Download.{oss_answer, octect, Answer, place_of, serve, download_handler}

-- A file that is there with status 0, as the program sees it; for any other, the zero struct.
abbrev pub found_file : Option FileRow → TableFile
found_file none = zero_file
found_file (some r) = if eqb_ℤ r.status (pos 0) then shown_file r else zero_file

pub found-live : (r : FileRow) → eqb_ℤ r.status (pos 0) ≡ true → found_file (some r) ≡ shown_file r
found-live r live = rw live refl

module _ (j : Json) (laws : JsonLaws j) where
  pub catalog_succeeds : (o : Option FileRow) → (catalog_answer o).suc ≡ true
  catalog_succeeds none = refl
  catalog_succeeds (some r) = elim (Bool-cases (eqb_ℤ r.status (pos 0))) [
    | inl live ↦ rw live refl
    | inr dead ↦ rw dead refl
  ]

  catalog_arrives :
      (o : Option FileRow)
      → IsCarriedFile j (found_file o)
      → j.to_table_file (laws.wire (catalog_answer o).payload) ≡ found_file o
  catalog_arrives none carried = laws.no_file_arrives
  catalog_arrives (some r) carried = elim (Bool-cases (eqb_ℤ r.status (pos 0))) [
    | inl live ↦
        rw live
          (laws.file_arrives (shown_file r) (subst (IsCarriedFile j) (found-live r live) carried))
    | inr dead ↦ rw dead laws.no_file_arrives
  ]

-- What a read of ceph gives, its error not looked at.
abbrev pub or_no_bytes : Result Text → Text
or_no_bytes (ok b) = b
or_no_bytes (err e) = []

abbrev pub or_failure : Text → Exit (Result Text) → Exit Answer
or_failure name panic = panic
or_failure name (ret (ok b)) = ret (named 200 (bytes "application/octect-stream") name b)
or_failure name (ret (err e)) =
    ret (raw 500 (bytes "application/octect-stream") (bytes "Intern server error."))

module _ {W : Type 0} (sql : Sql W) (my : MySql sql) (clock : Clock W) (j : Json)
    (laws : JsonLaws j) (stores : Stores W) where
  -- A download is served by the place that the row of the file says.
  pub download_handler-serve :
      (h u : Text) (w : W)
      → j.is_utf8 h ≡ true
      → j.is_utf8 u ≡ true
      → IsCarriedFile j (found_file ((my.view w).files h))
      → IsCarriedUserFile j (users_file sql my u h w)
      → download_handler j (direct sql clock j laws) stores h u w
        ≡ serve j
            (direct sql clock j laws)
            stores
            (place_of (found_file ((my.view w).files h)).file_addr.string)
            (found_file ((my.view w).files h)).file_addr.string
            (users_file sql my u h w).file_name
            w
  unfolding download_handler
  download_handler-serve h u w ph pu carried carried' =
      rw
        (
          client_get_file_meta sql my clock j laws h w ph,
          client_query_user_file_meta sql my clock j laws u h w pu ph,
          catalog_succeeds j laws ((my.view w).files h),
          catalog_arrives j laws ((my.view w).files h) carried,
          laws.user_file_arrives (users_file sql my u h w) carried',
        )
        refl

  -- What is sent under an address: a file of the local directory by its path, the bytes that ceph gives for
  -- the address or none, those that OSS gives or a server error, and under any other address a 404. What
  -- panics in OSS panics here.
  abbrev pub delivery : Text → Text → W → Exit Answer × W
  delivery addr name w =
      if has_prefix addr (bytes "/home/zwx/data/fileserver_marge/")
      then (ret (attachment addr name), w)
      else if has_prefix addr (bytes "/ceph")
      then (
        ret (
            named 200 (bytes "application/octect-stream") name
              (or_no_bytes (stores.get_ceph addr w).0)),
        (stores.get_ceph addr w).1,
      )
      else if has_prefix addr (bytes "oss/")
      then (or_failure name (stores.get_oss addr w).0, (stores.get_oss addr w).1)
      else (ret (raw 404 (bytes "application/octect-stream") (bytes "File not found.")), w)

  served :
      (name : Text) (r : Result Text) (w : W)
      → ◌≡◌ {A = Exit Answer × W}
          (ret (oss_answer j (direct sql clock j laws) stores name r), w)
          (or_failure name (ret r), w)
  unfolding oss_answer octect
  served name (ok b) w = refl
  served name (err e) w = refl

  serve-delivery :
      (addr name : Text) (w : W)
      → serve j (direct sql clock j laws) stores (place_of addr) addr name w ≡ delivery addr name w
  unfolding serve place_of
  serve-delivery addr name w = elim (Bool-cases (has_prefix addr merge_local_root_dir)) [
    | inl here ↦ rw here refl
    | inr not_here ↦ elim (Bool-cases (has_prefix addr ceph_root_dir)) [
      | inl in_ceph ↦ elim (Result-cases (stores.get_ceph addr w)) [
        | inl (b, w', gives) ↦ rw (not_here, in_ceph, gives) refl
        | inr (e, w', fails) ↦ rw (not_here, in_ceph, fails) refl
      ]
      | inr not_ceph ↦ elim (Bool-cases (has_prefix addr oss_root_dir)) [
        | inl in_oss ↦ elim (end-cases (stores.get_oss addr w)) [
          | inl (r, w', ends) ↦ rw (not_here, not_ceph, in_oss, ends) (served name r w')
          | inr (w', panics) ↦ rw (not_here, not_ceph, in_oss, panics) refl
        ]
        | inr nowhere ↦ rw (not_here, not_ceph, nowhere) refl
      ]
    ]
  ]

  -- A download of a file is answered by the address that the row of the file has, if its status is 0: with
  -- the local file, with the bytes of ceph or of OSS, or with a 404, under the name that the user has
  -- for it. A file that the table does not have with status 0 has no address, and a user who has no row
  -- for the file with status 0 is sent it under no name. The texts are UTF-8, the rows arrive whole, the
  -- server and the codec are the documented ones and the connection delivers.
  pub download_handler_lem :
      (h u : Text) (w : W)
      → j.is_utf8 h ≡ true
      → j.is_utf8 u ≡ true
      → IsCarriedFile j (found_file ((my.view w).files h))
      → IsCarriedUserFile j (users_file sql my u h w)
      → download_handler j (direct sql clock j laws) stores h u w
        ≡ delivery
            (found_file ((my.view w).files h)).file_addr.string
            (users_file sql my u h w).file_name
            w
  download_handler_lem h u w ph pu carried carried' =
      download_handler-serve h u w ph pu carried carried'
      ∙ serve-delivery (found_file ((my.view w).files h)).file_addr.string
          (users_file sql my u h w).file_name w
