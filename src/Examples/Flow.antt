-- ===== src/Examples/Flow.antt =====
-- Uploads in parts, on a redis whose world is its hashes.
use filestore_hsz.Go.Float.{ceil_quotient, float_of, step_of, round_quotient, units, unit_of}
use filestore_hsz.Prelude.{
  ◌≡◌, refl, Text, bytes, text_eq, length, pos, neg, [], ◌∷◌, ◌++◌, none, some, true, false, arith,
}
use filestore_hsz.Go.{ok, err, ret, pure}
use filestore_hsz.Go.Strconv.{atoi, format_uint}
use filestore_hsz.Util.{Shell, compute_sha1_by_shell}
use filestore_hsz.Http.{json}
use filestore_hsz.Dbproxy.Sql.{Clock}
use filestore_hsz.Dbproxy.Define.{exists}
use filestore_hsz.Dbproxy.Client
use filestore_hsz.Dbproxy.Client.{Stub}
use filestore_hsz.Upload.Services.{Files, Redis, TransferJson}
use filestore_hsz.Upload.Multipart.Keys.{Fields, chunk_key_prefix, chunk_count}
use filestore_hsz.Upload.Multipart.Keys.Session.{hset_field, part, session_fields}
use filestore_hsz.Upload.Multipart.Part.{upload_part_handler}
use filestore_hsz.Upload.Multipart.Part.Verified.{upload_part_handler_lem}
use filestore_hsz.Upload.Multipart.Part.Recorded.{Tells, upload_part_handler-Tells}
use filestore_hsz.Upload.Multipart.Init.{upload_info, initial_multipart_upload_handler}
use filestore_hsz.Upload.Multipart.Complete.{CompleteForm, complete_upload_handler}
use filestore_hsz.Upload.Multipart.Flow.Hash.{RedisLaws, set_hash}
use filestore_hsz.Upload.Multipart.Flow.Start.{IsSession, initial_multipart_upload_handler_opens}
use filestore_hsz.Upload.Multipart.Flow.Steps.{
  Uploads, here, sent, Uploads-IsSession, complete_after_uploads,
}
use filestore_hsz.Examples.Codec.{codec, bools_of}

abbrev alice : Text
alice = b'a' ∷ b'l' ∷ b'i' ∷ b'c' ∷ b'e' ∷ []

abbrev hash : Text
hash = b'f' ∷ b'0' ∷ []

abbrev Hashes : Type 0
Hashes = Text → Fields

abbrev files : Files Hashes
files = record {
  mkdir_all = λ p w. (tt, w);
  create = λ p w. (none, w);
  write = λ p b w. ((length b, none), w);
  open_file = λ p w. (none, w);
  read_all = λ p w. (ok hash, w);
}

abbrev redis : Redis Hashes
redis = record {
  exists = λ k w. (ok false, w);
  get = λ k w. (ok [], w);
  hgetall = λ k w. (ok (w k), w);
  hset = λ k f v w. (tt, set_hash k (hset_field f v (w k)) w);
  expire = λ k n w. (tt, w);
  set_ex = λ k v n w. (tt, w);
  del = λ k w. (ok (pos 1), w);
}

abbrev redis_laws : RedisLaws redis
redis_laws = record {
  hashes = λ w. w;
  hset_sets = λ k f v w. refl;
  hgetall_lists = λ k w. (w k, refl, λ p. refl);
  expire_keeps = λ k n w. refl;
  set_ex_keeps = λ k v n w i e. refl;
}

-- The digest of every file is `hash`.
abbrev shell : Shell Hashes
shell c w = (ok hash, w)

abbrev path_dir : Text → Text
path_dir p = p

abbrev clock : Clock Hashes
clock = record { now = λ w. (5, w) }

abbrev empty : Hashes
empty k = []

-- A file of two chunks is being uploaded, under every id.
abbrev begun : Hashes
begun k = session_fields 10485760 hash

-- A chunk is sent, and recorded.
abbrev after_chunk : Text → Hashes → Hashes
after_chunk i w =
    set_hash (chunk_key_prefix ++ alice)
      (hset_field (part i) (bytes "1") (w (chunk_key_prefix ++ alice))) w

chunk_sent :
    (i : Text) (w : Hashes)
    → upload_part_handler files redis shell path_dir alice hash i (hash ∷ []) w
      ≡ (ret (json 200 (pos 0) (bytes "ok") none), after_chunk i w)
unfolding text_eq compute_sha1_by_shell
chunk_sent i w =
    upload_part_handler_lem files redis shell path_dir alice hash i hash (hash ∷ []) w w w refl refl

abbrev one_part : Hashes
one_part = after_chunk (bytes "1") begun

first_upload : Uploads files redis shell path_dir redis_laws alice begun (bytes "1" ∷ []) one_part
unfolding text_eq bytes
first_upload =
    sent here hash (bytes "1") (hash ∷ []) (json 200 (pos 0) (bytes "ok") none)
      (chunk_sent (bytes "1") begun) refl

upload_part_handler-Tells_example :
    Tells redis_laws alice
      (bytes "1")
      begun
      (upload_part_handler files redis shell path_dir alice hash (bytes "1") (hash ∷ []) begun)
upload_part_handler-Tells_example =
    upload_part_handler-Tells files redis shell path_dir redis_laws (λ p w. refl) (λ p w. refl)
      (λ p b w. refl) (λ c w. refl) alice hash (bytes "1") (hash ∷ []) begun

Uploads-IsSession_example : IsSession redis_laws alice 10485760 hash (bytes "1" ∷ []) one_part
Uploads-IsSession_example =
    Uploads-IsSession files redis shell path_dir redis_laws (λ p w. refl) (λ p w. refl)
      (λ p b w. refl) (λ c w. refl) hash 10485760 refl first_upload

-- A user who has uploaded nothing.
abbrev fresh : Stub codec Hashes
fresh actions =
    pure (ok (record { suc = true; code = pos 0; msg = []; payload = exists false } ∷ []))

abbrev transfer : TransferJson
transfer = record { marshal = λ t. t.file_hash; unmarshal = λ m. err m }

abbrev form : CompleteForm
form = record {
  username = alice;
  filehash = hash;
  filesize = bytes "10485760";
  filename = alice;
  upload_id = alice;
}

-- One of two chunks has been sent.
complete_after_uploads_example :
    complete_upload_handler codec fresh redis shell (λ e k m. pure false) transfer form one_part
    ≡ (ret (json 200 (neg 2) (bytes "分块不完整") none), one_part)
unfolding text_eq bytes chunk_count ceil_quotient float_of step_of round_quotient units unit_of
complete_after_uploads_example =
    complete_after_uploads files redis shell path_dir redis_laws (λ p w. refl) (λ p w. refl)
      (λ p b w. refl) (λ c w. refl) codec fresh shell (λ e k m. pure false) transfer form hash
      10485760 (bytes "1" ∷ []) begun one_part (omega arith) refl first_upload

initial_multipart_upload_handler_opens_example :
    (w' : Hashes) × (initial_multipart_upload_handler codec fresh clock redis alice hash
        (bytes "7")
        empty
      ≡ (
        ret (
            json 200
              (pos 0)
              (bytes "ok")
              (some (upload_info hash (pos 7) (alice ++ format_uint 16 5) []))),
        w',
      ))
    × IsSession redis_laws (alice ++ format_uint 16 5) 7 hash [] w'
unfolding Client.is_user_file_uploaded text_eq bytes atoi bools_of
initial_multipart_upload_handler_opens_example =
    initial_multipart_upload_handler_opens redis redis_laws codec fresh clock alice hash (bytes "7")
      7 5 none empty empty empty empty refl refl refl refl refl

-- The quotient of this size is rounded to an integer: the chunks hold a byte less than the file has.
rounded_chunk_count : chunk_count (pos 45035996273704961) ≡ pos 8589934592
unfolding chunk_count ceil_quotient float_of step_of round_quotient units unit_of
rounded_chunk_count = refl
