-- ===== src/Examples/Resumed.antt =====
-- A resumed upload, with a server that takes the parts, in a world of redis' hashes and a disk.
use filestore_hsz.Go.Float.{ceil_quotient, float_of, step_of, round_quotient, units, unit_of}
use filestore_hsz.Prelude.{
  ℕ, ◌-◌, ◌≡◌, refl, sym, ap, ◌∙◌, Text, bytes, text_eq, text_eq_refl, has_prefix, length,
  length-append, take, take-append, drop, pos, List, [], ◌∷◌, ◌++◌, Option, none, some, true, false,
  arith,
}
use filestore_hsz.Go.{Result, ok, err, Exit, ret, pure}
use filestore_hsz.Go.Strconv.{atoi, format_int}
use filestore_hsz.Util.{Shell, digest, newline}
use filestore_hsz.Util.Stream.{concat, append_assoc, append_none}
use filestore_hsz.Util.Printed.{sha1_command}
use filestore_hsz.Http.{Response, json}
use filestore_hsz.Dbproxy.Define.{exists}
use filestore_hsz.Dbproxy.Mysql.{set_at}
use filestore_hsz.Dbproxy.Client.{Stub}
use filestore_hsz.Upload.Disk.{DiskLaws}
use filestore_hsz.Upload.Services.{Files, Redis, TransferJson}
use filestore_hsz.Upload.Multipart.Keys.{
  Fields, chunk_count, chunks_exist, is_chunk, chunk_key_prefix, chunk_field_prefix,
}
use filestore_hsz.Upload.Multipart.Keys.Session.{hset_field, with_parts, session_fields}
use filestore_hsz.Upload.Multipart.Part.{chunk_path, upload_part_handler}
use filestore_hsz.Upload.Multipart.Part.Whole.{upload_part_handler_whole}
use filestore_hsz.Upload.Multipart.Complete.{CompleteForm, complete_upload_handler, merge}
use filestore_hsz.Upload.Multipart.Flow.Hash.{RedisLaws, set_hash}
use filestore_hsz.Upload.Multipart.Flow.Steps.{Uploads, here, sent}
use filestore_hsz.Mpupload.Choose.{contain, chunks_to_upload}
use filestore_hsz.Mpupload.Parts.{Job, Read, jobs}
use filestore_hsz.Mpupload.Transfer.{
  Post, part_url, State, state, Step, Steps, started, to_receive, upload_parts_specified,
}
use filestore_hsz.Mpupload.Transfer
use filestore_hsz.Mpupload.Resume.{decimal}
use filestore_hsz.Mpupload.Delivered.{world_of}
use filestore_hsz.Mpupload.Completes.{resumed_run_completes}
use filestore_hsz.Examples.Codec.{codec}

abbrev alice : Text
alice = b'a' ∷ b'l' ∷ b'i' ∷ b'c' ∷ b'e' ∷ []

abbrev W : Type 0
W = (Text → Fields) × (Text → Option Text)

appended : Text → Option Text → Option Text
appended b none = none
appended b (some s) = some (s ++ b)

is_missing : Option Text → Option Text
is_missing none = some (bytes "no such file")
is_missing (some s) = none

contents : Option Text → Result Text
contents none = err (bytes "no such file")
contents (some s) = ok s

files : Files W
unfolding appended is_missing contents
files = record {
  mkdir_all = λ p w. (tt, w);
  create = λ p (h, d). (none, (h, set_at text_eq p (some []) d));
  write = λ p b (h, d). ((length b, none), (h, set_at text_eq p (appended b (d p)) d));
  open_file = λ p (h, d). (is_missing (d p), (h, d));
  read_all = λ p (h, d). (contents (d p), (h, d));
}

disk : DiskLaws files
unfolding files appended is_missing contents
disk = record {
  contents = λ w. w.1;
  creates = λ p w w' e. sym (ap (λ (x : Option Text × W). x.1.1 p) e) ∙ rw (text_eq_refl p) refl;
  writes = λ p s b w w' h e.
      sym (ap (λ (x : (ℕ × Option Text) × W). x.1.1 p) e) ∙ rw (text_eq_refl p, h) refl;
  opens = λ p s w h. rw h refl;
  reads = λ p s w h. rw h refl;
}

abbrev redis : Redis W
redis = record {
  exists = λ k w. (ok false, w);
  get = λ k w. (ok [], w);
  hgetall = λ k (h, d). (ok (h k), (h, d));
  hset = λ k f v (h, d). (tt, (set_hash k (hset_field f v (h k)) h, d));
  expire = λ k n w. (tt, w);
  set_ex = λ k v n w. (tt, w);
  del = λ k w. (ok (pos 1), w);
}

redis_laws : RedisLaws redis
redis_laws = record {
  hashes = λ w. w.0;
  hset_sets = λ k f v w. refl;
  hgetall_lists = λ k w. (w.0 k, refl, λ p. refl);
  expire_keeps = λ k n w. refl;
  set_ex_keeps = λ k v n w i e. refl;
}

-- A digest of one byte, and a shell that prints it.
abbrev sha1 : Text → Text
sha1 t = 171 ∷ []

shell : Shell W
shell c w = (ok (digest sha1 [] ++ newline), w)

abbrev path_dir : Text → Text
path_dir p = p

-- What stands between an index and the end of the address.
abbrev rest_of_url : Text
rest_of_url = bytes "&chkhash=" ++ digest sha1 []

index_in : Text → Text
index_in url = let t = drop 7 url in take (length t - length rest_of_url) t

handled : Text → Text → W → W
handled i body w =
    (upload_part_handler files redis shell path_dir alice (digest sha1 body) i (body ∷ []) w).1

post : Post W
post url body w = (ok (bytes "ok"), handled (index_in url) body w)

length-rest : (i : Text) → length (i ++ rest_of_url) - length rest_of_url ≡ length i
length-rest i = omega (arith, length-append i rest_of_url)

index_in_lem : (i : Text) → index_in (bytes "&index=" ++ i ++ rest_of_url) ≡ i
unfolding index_in bytes
index_in_lem i =
    ap (λ (n : ℕ). take n (i ++ rest_of_url)) (length-rest i) ∙ take-append i rest_of_url

part_url_lem : (j : Job) → part_url sha1 [] j ≡ bytes "&index=" ++ decimal j.0 ++ rest_of_url
unfolding part_url digest
part_url_lem j = append_assoc (bytes "&index=" ++ decimal j.0) (bytes "&chkhash=") (digest sha1 [])

serves :
    (j : Job) (v : W)
    → (reads : List Text) × (body : Text) × (concat reads ≡ j.1)
      × (post (part_url sha1 [] j) j.1 v ≡ (
        ok body,
        (upload_part_handler files redis shell path_dir alice
            (digest sha1 j.1)
            (decimal j.0)
            reads
            v).1,
      ))
unfolding post handled
serves j v = (
  j.1 ∷ [],
  bytes "ok",
  append_none j.1,
  ap (λ (i : Text). (ok (bytes "ok"), handled i j.1 v))
      (ap index_in (part_url_lem j) ∙ index_in_lem (decimal j.0)),
)

prints :
    (i s : Text) (v : W)
    → disk.contents v (chunk_path alice i) ≡ some s
    → shell (sha1_command (chunk_path alice i)) v ≡ (ok (digest sha1 s ++ newline), v)
unfolding shell digest
prints i s v there = refl

-- A file of two chunks is being uploaded, under every id.
abbrev begun : W
begun = (λ k. session_fields 10485760 alice, λ p. none)

-- The first part is sent, before the run.
before : W
before = handled (decimal 1) alice begun

creates : (p : Text) (w : W) → (files.create p w).0 ≡ none
unfolding files
creates p w = refl

writes : (p b : Text) (w : W) → (files.write p b w).0 ≡ (length b, none)
unfolding files
writes p b w = refl

mkdir_keeps : (p : Text) (w : W) → redis_laws.hashes (files.mkdir_all p w).1 ≡ redis_laws.hashes w
unfolding files redis_laws
mkdir_keeps p w = refl

create_keeps : (p : Text) (w : W) → redis_laws.hashes (files.create p w).1 ≡ redis_laws.hashes w
unfolding files redis_laws
create_keeps p w = refl

write_keeps : (p b : Text) (w : W) → redis_laws.hashes (files.write p b w).1 ≡ redis_laws.hashes w
unfolding files redis_laws
write_keeps p b w = refl

shell_keeps : (c : Text) (w : W) → redis_laws.hashes (shell c w).1 ≡ redis_laws.hashes w
unfolding shell
shell_keeps c w = refl

first_part : Uploads files redis shell path_dir redis_laws alice begun (decimal 1 ∷ []) before
unfolding before handled
first_part =
    let (v, run) =
      upload_part_handler_whole files disk redis shell path_dir sha1 alice (decimal 1) alice
        (alice ∷ []) begun (λ v. creates _ v) (λ b v. writes _ b v) (append_none alice)
        (λ v s there. prints (decimal 1) s v there) in
    sent here (digest sha1 alice) (decimal 1) (alice ∷ []) (json 200 (pos 0) (bytes "ok") none)
      (run
        ∙ ap (λ (w : W). (ret (json 200 (pos 0) (bytes "ok") none), w))
            (sym (ap (λ (x : Exit (Response (Unit {0})) × W). x.1) run)))
      (rw (text_eq_refl (bytes "ok")) refl)

-- A user who has uploaded nothing.
abbrev fresh : Stub codec W
fresh actions =
    pure (ok (record { suc = true; code = pos 0; msg = []; payload = exists false } ∷ []))

abbrev transfer : TransferJson
transfer = record { marshal = λ t. t.file_hash; unmarshal = λ m. err m }

abbrev form : CompleteForm
form = record {
  username = alice;
  filehash = alice;
  filesize = bytes "10485760";
  filename = alice;
  upload_id = alice;
}

abbrev chunk : Read
chunk = record { chunk = alice; error = none }

-- The second part is started.
abbrev run_started : State W
run_started = state ((2, alice) ∷ []) [] [] 1 before

resumed_run_completes_example :
    (m : ℕ) × (u : State W) × Steps post sha1 [] (state [] ((2, alice) ∷ []) [] 1 before) m u
    × (to_receive post sha1 [] u ≡ 0)
    × (complete_upload_handler codec fresh redis shell
          (λ e k m. pure false)
          transfer
          form
          (world_of u)
        ≡ merge codec fresh redis shell (λ e k m. pure false) transfer form (world_of u))
unfolding chunk_count ceil_quotient float_of step_of round_quotient units unit_of chunks_exist
    chunks_to_upload contain is_chunk has_prefix text_eq bytes atoi format_int
    upload_parts_specified redis_laws jobs
resumed_run_completes_example =
    resumed_run_completes files disk redis shell path_dir redis_laws mkdir_keeps create_keeps
      write_keeps shell_keeps sha1 post [] form (λ i v. creates _ v) (λ i b v. writes _ b v)
      (λ i s v there. prints (decimal i) s v there) serves codec fresh shell (λ e k m. pure false)
      transfer alice 10485760 2 5 (1 ∷ [])
      (with_parts (decimal 1 ∷ []) (session_fields 10485760 alice)) (chunk ∷ chunk ∷ []) begun
      before run_started 1 (state [] ((2, alice) ∷ []) [] 1 before) (omega arith) refl (omega arith)
      (omega arith) (omega arith)
      ((omega arith, omega arith, refl), ((omega arith, omega arith, refl), tt))
      ((omega arith, omega arith), tt) (λ p. refl) refl first_part refl
      (Transfer.then Transfer.here (started (2, alice)))

upload_part_handler_whole_example :
    (v : W) × (upload_part_handler files redis shell path_dir alice
        (digest sha1 alice)
        (bytes "1")
        (alice ∷ [])
        begun
      ≡ (
        ret (json 200 (pos 0) (bytes "ok") none),
        (redis.hset (chunk_key_prefix ++ alice) (chunk_field_prefix ++ bytes "1") (bytes "1") v).1,
      ))
upload_part_handler_whole_example =
    upload_part_handler_whole files disk redis shell path_dir sha1 alice (bytes "1") alice
      (alice ∷ []) begun (λ v. creates _ v) (λ b v. writes _ b v) refl
      (λ v s there. prints (bytes "1") s v there)
