-- ===== src/Upload/Simple/Saved.antt =====
-- service/upload/api/upload.go, `DoUploadHandler`, over the documented server: what an upload leaves in
-- the tables.
use filestore_hsz.Prelude.{
  ℕ, ◌/◌, ◌^◌, ◌<◌, ◌≡◌, refl, ap, ◌∙◌, Text, bytes, length, length-append, ℤ, pos, [], ◌∷◌, ◌++◌,
  Option, none, some, get_or, Bool, true, ==_iff, lt→ltb, arith, Option-cases, inl, inr,
}
use filestore_hsz.Go.{ok, ret}
use filestore_hsz.Common.{
  store_oss, merge_local_root_dir, oss_root_dir, trans_exchange_name, trans_oss_routing_key,
}
use filestore_hsz.Util.{digest}
use filestore_hsz.Http.{json}
use filestore_hsz.Mq.{TransferData}
use filestore_hsz.Dbproxy.Sql.{Sql, Clock}
use filestore_hsz.Dbproxy.Define.{success, nil}
use filestore_hsz.Dbproxy.Mysql.{
  FitsChar, Fits, is_utf8mb3, is_utf8mb3-append, in_range-IsInt64, MySql, Tables, FileRow,
  UserFileRow, add_file, add_user_file,
}
use filestore_hsz.Dbproxy.Orm.File.Catalog
use filestore_hsz.Dbproxy.Orm.UserFile.Trash
use filestore_hsz.Dbproxy.Mapper.{text, int, Function, key_of, num_in, invoke}
use filestore_hsz.Dbproxy.Json.{Json, JsonLaws, IsPlain}
use filestore_hsz.Dbproxy.Client
use filestore_hsz.Dbproxy.Client.{Stub, FileMeta}
use filestore_hsz.Dbproxy.Client.Delivery.{direct, answer, request-key_of}
use filestore_hsz.Account.User.{succeeded}
use filestore_hsz.Upload.Services.{Files, Stores, Publish, TransferJson}
use filestore_hsz.Upload.Simple.{upload_answer, upload_code, do_upload_handler}

files-add_user_file :
    (same : Text → Text → Bool) (u h : Text) (r : UserFileRow) (t : Tables)
    → (add_user_file same u h r t).files ≡ t.files
files-add_user_file same u h r t = elim (Option-cases (t.user_files u h)) [
  | inl free ↦ rw (add_user_file, free) refl
  | inr (old, there) ↦ rw (add_user_file, there) refl
]

-- Where a file is put, and the message that has it copied to OSS.
abbrev pub local_path : (Text → Text) → Text → Text
local_path sha1 content = merge_local_root_dir ++ digest sha1 content

abbrev pub handover : (Text → Text) → Text → Text → TransferData
handover sha1 name content = record {
  file_hash = digest sha1 content;
  cur_location = local_path sha1 content;
  dest_location = oss_root_dir ++ name;
  dest_store_type = store_oss;
}

short_path : (h : Text) → Fits h 40 → Fits (merge_local_root_dir ++ h) 1024
unfolding bytes is_utf8mb3
short_path h (short, plain) = (
  omega (arith, length-append merge_local_root_dir h),
  is_utf8mb3-append merge_local_root_dir h refl plain,
)

module _ {W : Type 0} (sql : Sql W) (my : MySql sql) (clock : Clock W) (j : Json)
    (laws : JsonLaws j) (quiet : (v : W) → my.view (clock.now v).1 ≡ my.view v) where
  abbrev proxy : Stub j W
  proxy = direct sql clock j laws

  client_file :
      (h n a at : Text) (s : ℕ) (w : W)
      → j.is_utf8 h ≡ true
      → j.is_utf8 n ≡ true
      → j.is_utf8 a ≡ true
      → s < 2 ^ 63
      → FitsChar h 40
      → Fits n 256
      → Fits a 1024
      → (w' : W) × (Client.on_file_upload_finished j proxy
            (record {
              file_sha1 = h;
              file_name = n;
              file_size = pos s;
              location = a;
              upload_at = at;
            })
            w
          ≡ (ret (answer sql clock j laws (success nil)), w'))
        × (my.view w'
            ≡ add_file my.same h
                (record { hash = h; name = n; size = pos s; addr = a; status = pos 0 })
                (my.view w))
  unfolding Client.on_file_upload_finished num_in key_of invoke
  client_file h n a at s w ph pn pa ps fh fn fa =
      let (w', run, stored) =
        Catalog.on_file_upload_finished_lem sql my h n (pos s) a w fh fn fa ps in
      (
        w',
        request-key_of sql clock j laws Function.file_upload_finished
              (text h ∷ text n ∷ int (pos s) ∷ text a ∷ []) w
              (ph, (pn, ((refl, lt→ltb s (2 ^ 63) ps), (pa, tt)))) refl
            ∙ rw run refl,
        stored,
      )

  pub client_user_file :
      (u h n a at : Text) (s : ℤ) (w : W)
      → j.is_utf8 u ≡ true
      → j.is_utf8 h ≡ true
      → j.is_utf8 n ≡ true
      → IsPlain j (int s)
      → Fits u 64
      → Fits h 64
      → Fits n 256
      → (w' : W) × (Client.on_user_file_upload_finished j proxy u
            (record { file_sha1 = h; file_name = n; file_size = s; location = a; upload_at = at })
            w
          ≡ (ret (answer sql clock j laws (success nil)), w'))
        × (my.view w'
            ≡ add_user_file my.same u h
                (record { hash = h; name = n; size = s; status = pos 0 })
                (my.view w))
  unfolding Client.on_user_file_upload_finished num_in key_of invoke
  client_user_file u h n a at s w pu ph pn ps fu fh fn =
      let (w', run, stored) =
        Trash.on_user_file_upload_finished_lem sql my clock u h n s w fu fh fn
          (in_range-IsInt64 s ps.0 ps.1) (quiet w) in
      (
        w',
        request-key_of sql clock j laws Function.user_file_upload_finished
              (text u ∷ text h ∷ text n ∷ int s ∷ []) w (pu, (ph, (pn, (ps, tt)))) refl
            ∙ rw run refl,
        stored,
      )

  module _ (files : Files W) (stores : Stores W) (publish : Publish W) (transfer : TransferJson)
      (sha1 : Text → Text) (format_time : ℕ → Text) where
    -- An upload whose local file is created and written whole, and whose publication returns, is
    -- answered with a success, and leaves in the tables a file with the digest of its content, and
    -- that file among the user's; a row that was there stays. The texts are UTF-8, with
    -- characters of at most three bytes, and fit their
    -- columns, the size is an int64, reading the clock changes no table, the server is the
    -- documented one and the connection to it delivers.
    pub do_upload_handler_lem :
        (username name content : Text) (b : Bool) (w w₁ w₂ w₃ : W)
        → files.create (local_path sha1 content) (clock.now w).1 ≡ (none, w₁)
        → files.write (local_path sha1 content) content w₁ ≡ ((length content, none), w₂)
        → publish trans_exchange_name trans_oss_routing_key
            (transfer.marshal (handover sha1 name content))
            w₂
          ≡ (ret b, w₃)
        → length content < 2 ^ 63
        → FitsChar (digest sha1 content) 40
        → Fits name 256
        → Fits username 64
        → j.is_utf8 (digest sha1 content) ≡ true
        → j.is_utf8 (local_path sha1 content) ≡ true
        → j.is_utf8 name ≡ true
        → j.is_utf8 username ≡ true
        → (w' : W) × (do_upload_handler j proxy clock files stores publish transfer sha1 format_time
              (ok (record { filename = name; content = ok content }))
              username
              w
            ≡ (ret (json 200 (pos 0) (bytes "上传成功") none), w'))
          × ((my.view w').files (digest sha1 content)
              ≡ some (
                  get_or ((my.view w₃).files (digest sha1 content)) (record {
                    hash = digest sha1 content;
                    name = name;
                    size = pos (length content);
                    addr = local_path sha1 content;
                    status = pos 0;
                  })))
          × ((my.view w').user_files username (digest sha1 content)
              ≡ some (
                  get_or ((my.view w₃).user_files username (digest sha1 content)) (record {
                    hash = digest sha1 content;
                    name = name;
                    size = pos (length content);
                    status = pos 0;
                  })))
    unfolding do_upload_handler upload_code upload_answer succeeded
    do_upload_handler_lem username name content b w w₁ w₂ w₃ creates writes publishes size fh fn fu
          ph pa pn pu =
        let at = format_time ((clock.now w).0 / 10 ^ 9) in
        let (w₄, run, stored) =
          client_file (digest sha1 content) name (local_path sha1 content) at (length content) w₃ ph
            pn pa size fh fn (short_path (digest sha1 content) fh.0) in
        let (w₅, run', stored') =
          client_user_file username (digest sha1 content) name (local_path sha1 content) at
            (pos (length content)) w₄ pu ph pn (refl, lt→ltb (length content) (2 ^ 63) size) fu
            (omega (arith, fh.0.0), fh.0.1) fn in
        (
          w₅,
          rw
              (
                creates,
                writes,
                (==_iff (length content) (length content)).1 refl,
                publishes,
                run,
                run',
              )
              refl,
          ap (λ (t : Tables). t.files (digest sha1 content)) stored'
              ∙ ap (λ (f : Text → Option FileRow). f (digest sha1 content))
                  (files-add_user_file my.same username (digest sha1 content) _ (my.view w₄))
              ∙ ap (λ (t : Tables). t.files (digest sha1 content)) stored
              ∙ Catalog.first_stays sql my (digest sha1 content) _ (my.view w₃),
          ap (λ (t : Tables). t.user_files username (digest sha1 content)) stored'
              ∙ Trash.first_stays sql my username (digest sha1 content) _ (my.view w₄)
              ∙ ap
                  (λ (t : Tables). some (
                    get_or (t.user_files username (digest sha1 content)) (record {
                      hash = digest sha1 content;
                      name = name;
                      size = pos (length content);
                      status = pos 0;
                    })))
                  stored,
        )
