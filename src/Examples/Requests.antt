-- ===== src/Examples/Requests.antt =====
-- Calls over the connection, the message queue, a transfer, and the multipart upload.
use filestore_hsz.Dbproxy.Mysql.{is_utf8mb3}
use filestore_hsz.Prelude.{
  ℕ, ◌≡◌, refl, ◌↔◌, ◌≤◌, Text, bytes, text_eq, length, pos, List, [], ◌∷◌, none, some, true, false,
  arith, ◌*◌,
}
use filestore_hsz.Go.Strconv.{atoi}
use filestore_hsz.Go.{ok, err, ret, pure, ◌>>=◌}
use filestore_hsz.Common.{store_oss}
use filestore_hsz.Http.{raw}
use filestore_hsz.Dbproxy.Sql.{Clock}
use filestore_hsz.Dbproxy.Define.{Payload, nil}
use filestore_hsz.Dbproxy.Mysql.{Tables, FileRow}
use filestore_hsz.Dbproxy.Mapper.{Function, text, key_of, invoke, num_in}
use filestore_hsz.Dbproxy.Json.{Reply}
use filestore_hsz.Dbproxy.Client
use filestore_hsz.Dbproxy.Client.{Stub, WithError, request}
use filestore_hsz.Dbproxy.Client.Delivery.{direct, answer, request-key_of}
use filestore_hsz.Account.UserFile.{user_file_rename, user_file_delete}
use filestore_hsz.Gateway.User.{UserService}
use filestore_hsz.Gateway.UserFile.{file_meta_update_handler}
use filestore_hsz.Gateway.UserFile.Renaming.{file_meta_update_handler_lem}
use filestore_hsz.Mq.{TransferData, Amqp, Vars}
use filestore_hsz.Transfer.{process_transfer}
use filestore_hsz.Transfer.Outcome.{process_transfer_lem}
use filestore_hsz.Upload.Services.{Files, Stores, Redis, TransferJson}
use filestore_hsz.Upload.Multipart.Keys.{chunk_count, chunk_size, Fields, is_complete}
use filestore_hsz.Upload.Multipart.Keys.Count.{
  chunk_count_covers, is_complete_by_parts, is_part, filter,
}
use filestore_hsz.Upload.Multipart.Complete.{CompleteForm}
use filestore_hsz.Examples.Server.{server, server_laws}
use filestore_hsz.Examples.Codec.{codec, codec_laws}

abbrev alice : Text
alice = b'a' ∷ b'l' ∷ b'i' ∷ b'c' ∷ b'e' ∷ []

abbrev disk : Text
disk = b'/' ∷ b'd' ∷ []

abbrev oss_path : Text
oss_path = b'o' ∷ b's' ∷ b's' ∷ b'/' ∷ []

abbrev stored : FileRow
stored = record { hash = disk; name = alice; size = pos 7; addr = disk; status = pos 0 }

-- Every hash has the one row.
abbrev tables : Tables
tables = record {
  users = λ u. none;
  tokens = λ u. none;
  files = λ h. some stored;
  user_files = λ u h. none;
}

abbrev clock : Clock Tables
clock = record { now = λ t. (5, t) }

abbrev proxy : Stub codec Tables
proxy = direct server clock codec codec_laws

request-key_of_example :
    request codec proxy (key_of Function.signup) (text alice ∷ text disk ∷ []) tables
    ≡ (invoke server clock Function.signup (text alice ∷ text disk ∷ []) >>= λ r.
          pure (answer server clock codec codec_laws r))
        tables
unfolding num_in
request-key_of_example =
    request-key_of server clock codec codec_laws Function.signup (text alice ∷ text disk ∷ [])
      tables (refl, (refl, tt)) refl

abbrev renamed : Reply Payload
renamed = record { suc = false; payload = nil }

-- A database that refuses everything.
abbrev refusing : Stub codec Tables
refusing actions = pure (ok (record { suc = false; code = pos 0; msg = []; payload = nil } ∷ []))

abbrev users : UserService Tables
users = record {
  signup = λ u p. pure (err []);
  signin = λ u p. pure (err []);
  user_info = λ u. pure (err []);
  user_files = λ u s l. pure (err []);
  user_file_rename = user_file_rename codec refusing;
  user_file_delete = user_file_delete codec refusing;
}

-- A refused renaming, shown as a success.
file_meta_update_handler_lem_example :
    file_meta_update_handler users (bytes "0") disk alice alice disk tables
    ≡ (ret (raw 200 (bytes "application/json") (bytes "[修改文件名成功]")), tables)
unfolding Client.rename_file_name bytes
file_meta_update_handler_lem_example =
    file_meta_update_handler_lem codec refusing users alice disk alice disk tables tables renamed
      (omega arith) refl refl

abbrev Log : Type 0
Log = List Text

-- A broker that refuses the connection.
abbrev broker : Amqp Log
broker = record {
  Channel = Unit {0};
  Connection = Unit {0};
  dial = λ url w. (err url, w);
  open_channel = λ c w. (ok tt, w);
  publish = λ c e k m w. (none, m ∷ w);
}

abbrev vars : Vars (Unit {0})
vars = record { channel = none; rabbit_url = disk }

abbrev files : Files Tables
files = record {
  mkdir_all = λ p w. (tt, w);
  create = λ p w. (none, w);
  write = λ p b w. ((length b, none), w);
  open_file = λ p w. (none, w);
  read_all = λ p w. (ok alice, w);
}

abbrev stores : Stores Tables
stores = record {
  put_ceph = λ p b w. (none, w);
  get_ceph = λ p w. (ok alice, w);
  put_oss = λ p b w. (ret none, w);
  get_oss = λ p w. (ret (ok alice), w);
  oss_url = λ p w. (ret p, w);
}

abbrev moving : TransferData
moving = record {
  file_hash = alice;
  cur_location = disk;
  dest_location = oss_path;
  dest_store_type = store_oss;
}

abbrev transfer : TransferJson
transfer = record { marshal = λ t. t.file_hash; unmarshal = λ m. ok moving }

process_transfer_lem_example :
    (process_transfer codec proxy files stores transfer alice tables).0 ≡ ret true
unfolding is_utf8mb3 server_laws text_eq
process_transfer_lem_example =
    process_transfer_lem server server_laws clock codec codec_laws files stores transfer alice alice
      moving tables tables tables tables refl refl refl refl (omega arith, refl) refl refl refl

-- A byte more than two chunks hold.
chunk_count_covers_example :
    (k : ℕ) × (chunk_count (pos 10485761) ≡ pos k)
    × (10485761 ≤ k * chunk_size)
    × ((m : ℕ) → 10485761 ≤ m * chunk_size → k ≤ m)
chunk_count_covers_example = chunk_count_covers 10485761 (omega arith) (omega arith)

abbrev session : Fields
session =
    (bytes "chunkcount", bytes "2")
    ∷ (bytes "chkidx_1", bytes "1")
    ∷ (bytes "filehash", bytes "f0")
    ∷ (bytes "chkidx_2", bytes "1")
    ∷ []

abbrev started : Fields
started = (bytes "chunkcount", bytes "2") ∷ (bytes "chkidx_1", bytes "1") ∷ []

abbrev form : CompleteForm
form = record {
  upload_id = alice;
  username = alice;
  filehash = disk;
  filesize = b'7' ∷ [];
  filename = alice;
}

abbrev redis_with : Fields → Redis Tables
redis_with fields = record {
  exists = λ k w. (ok false, w);
  get = λ k w. (ok [], w);
  hgetall = λ k w. (ok fields, w);
  hset = λ k f v w. (tt, w);
  expire = λ k n w. (tt, w);
  set_ex = λ k v n w. (tt, w);
  del = λ k w. (ok (pos 1), w);
}

-- Two chunks are verified.
is_complete_by_parts_example :
    (is_complete session ≡ true)
    ↔ ((atoi (bytes "2")).number ≡ pos (length (filter is_part session)))
unfolding text_eq bytes
is_complete_by_parts_example =
    is_complete_by_parts []
      ((bytes "chkidx_1", bytes "1")
        ∷ (bytes "filehash", bytes "f0")
        ∷ (bytes "chkidx_2", bytes "1")
        ∷ [])
      (bytes "2") (refl, (refl, (refl, tt)))
