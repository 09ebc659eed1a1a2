-- ===== src/Examples/Uploads.antt =====
-- Uploads, whole, fast and in parts.
use filestore_hsz.Dbproxy.Mysql.{ends_in_blank, is_utf8mb3}
use filestore_hsz.Prelude.{
  ℕ, suc, ◌≡◌, refl, Text, bytes, text_eq, has_prefix, length, pos, [], ◌∷◌, none, some, true,
  false, if◌then◌else◌, arith,
}
use filestore_hsz.Go.{ok, err, ret, pure}
use filestore_hsz.Util.{digest}
use filestore_hsz.Http.{json, raw}
use filestore_hsz.Download.{place_of, serve, download_handler}
use filestore_hsz.Download.Served.{download_handler_lem}
use filestore_hsz.Dbproxy.Sql.{Clock}
use filestore_hsz.Dbproxy.Mysql.{Tables, FileRow, add_user_file}
use filestore_hsz.Dbproxy.Define.{exists}
use filestore_hsz.Dbproxy.Client.{Stub}
use filestore_hsz.Dbproxy.Client.Delivery.{direct}
use filestore_hsz.Upload.Services.{Files, Stores, Redis, TransferJson}
use filestore_hsz.Upload.Simple.{do_upload_handler}
use filestore_hsz.Upload.Simple.Saved.{do_upload_handler_lem, local_path}
use filestore_hsz.Upload.Fast.{try_fast_upload_handler}
use filestore_hsz.Upload.Fast.Shared.{try_fast_upload_handler_lem}
use filestore_hsz.Upload.Multipart.Keys.{Fields}
use filestore_hsz.Examples.Server.{server, server_laws}
use filestore_hsz.Examples.Codec.{codec, codec_laws}

abbrev alice : Text
alice = b'a' ∷ b'l' ∷ b'i' ∷ b'c' ∷ b'e' ∷ []

abbrev notes : Text
notes = b'n' ∷ b'o' ∷ b't' ∷ b'e' ∷ b's' ∷ []

abbrev hash : Text
hash = b'f' ∷ b'0' ∷ []

abbrev stored : FileRow
stored = record { hash = hash; name = alice; size = pos 7; addr = hash; status = pos 0 }

-- One file is there, under `hash`.
abbrev tables : Tables
tables = record {
  users = λ u. none;
  tokens = λ u. none;
  files = λ h. if text_eq h hash then some stored else none;
  user_files = λ u h. none;
}

abbrev clock : {W : Type 0} → Clock W
clock = record { now = λ t. (5, t) }

abbrev proxy : Stub codec Tables
proxy = direct server clock codec codec_laws

abbrev files : {W : Type 0} → Files W
files = record {
  mkdir_all = λ p w. (tt, w);
  create = λ p w. (none, w);
  write = λ p b w. ((length b, none), w);
  open_file = λ p w. (none, w);
  read_all = λ p w. (ok notes, w);
}

abbrev stores : Stores Tables
stores = record {
  put_ceph = λ p b w. (none, w);
  get_ceph = λ p w. (ok alice, w);
  put_oss = λ p b w. (ret none, w);
  get_oss = λ p w. (ret (ok alice), w);
  oss_url = λ p w. (ret p, w);
}

abbrev transfer : TransferJson
transfer = record { marshal = λ t. t.file_hash; unmarshal = λ m. err m }

-- A digest that keeps the content.
abbrev sha1 : Text → Text
sha1 t = t

do_upload_handler_lem_example :
    (w : Tables) × (do_upload_handler codec proxy clock files stores
        (λ e k m. pure false)
        transfer
        sha1
        (λ n. [])
        (ok (record { filename = notes; content = ok notes }))
        alice
        tables
      ≡ (ret (json 200 (pos 0) (bytes "上传成功") none), w))
    × (w.files (digest sha1 notes)
        ≡ some (record {
          hash = digest sha1 notes;
          name = notes;
          size = pos 5;
          addr = local_path sha1 notes;
          status = pos 0;
        }))
    × (w.user_files alice (digest sha1 notes)
        ≡ some (record { hash = digest sha1 notes; name = notes; size = pos 5; status = pos 0 }))
unfolding is_utf8mb3 ends_in_blank server_laws text_eq digest
do_upload_handler_lem_example =
    do_upload_handler_lem server server_laws clock codec codec_laws (λ v. refl) files stores
      (λ e k m. pure false) transfer sha1 (λ n. []) alice notes notes false tables tables tables
      tables refl refl refl (omega arith) ((omega arith, refl), refl) (omega arith, refl)
      (omega arith, refl) refl refl refl refl

try_fast_upload_handler_lem_example :
    (w : Tables) × (try_fast_upload_handler codec proxy alice hash notes tables
      ≡ (ret (json 200 (pos 0) (bytes "秒传成功") none), w))
    × (w
        ≡ add_user_file text_eq alice hash
            (record { hash = hash; name = notes; size = pos 7; status = pos 0 })
            tables)
unfolding is_utf8mb3 server_laws text_eq
try_fast_upload_handler_lem_example =
    try_fast_upload_handler_lem server server_laws clock codec codec_laws (λ v. refl) alice hash
      notes stored tables refl refl refl (refl, refl)
      (record { hash = refl; name = refl; address = refl; size = (refl, refl) }) (omega arith, refl)
      (omega arith, refl) (omega arith, refl) refl refl

-- A redis that counts the fields that are set.
abbrev redis : Fields → Redis ℕ
redis fields = record {
  exists = λ k w. (ok true, w);
  get = λ k w. (ok notes, w);
  hgetall = λ k w. (ok fields, w);
  hset = λ k f v w. (tt, suc w);
  expire = λ k n w. (tt, w);
  set_ex = λ k v n w. (tt, w);
  del = λ k w. (ok (pos 1), w);
}

abbrev started : Fields
started = (bytes "chunkcount", bytes "2") ∷ (bytes "chkidx_1", bytes "1") ∷ []

-- A user who has uploaded nothing.
abbrev fresh : Stub codec ℕ
fresh actions =
    pure (ok (record { suc = true; code = pos 0; msg = []; payload = exists false } ∷ []))

-- Alice has no row for the file that is stored under `hash`.
download_handler_lem_example :
    download_handler codec proxy stores hash alice tables
    ≡ (ret (raw 404 (bytes "application/octect-stream") (bytes "File not found.")), tables)
unfolding server_laws text_eq serve place_of has_prefix bytes
download_handler_lem_example =
    download_handler_lem server server_laws clock codec codec_laws stores hash alice tables refl
      refl (record { hash = refl; name = refl; address = refl; size = (refl, refl) })
      (record {
        user = refl;
        hash = refl;
        name = refl;
        uploaded = refl;
        updated = refl;
        size = (refl, refl);
      })
