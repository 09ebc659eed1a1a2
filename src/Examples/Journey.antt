-- ===== src/Examples/Journey.antt =====
-- A file's way from an upload to a download, and the process that holds a channel to the broker.
use filestore_hsz.Dbproxy.Mysql.{ends_in_blank, is_utf8mb3}
use filestore_hsz.Prelude.{
  ◌≡◌, refl, Text, bytes, text_eq, length, pos, [], ◌∷◌, none, some, get_or, Bool, true, false,
  ◌++◌, arith, if◌then◌else◌,
}
use filestore_hsz.Go.{ok, ret, ◌>>◌}
use filestore_hsz.Common.{merge_local_root_dir}
use filestore_hsz.Common.Flags.{Cli, CliLaws, find_flag}
use filestore_hsz.Util.{digest}
use filestore_hsz.Http.{json, named, attachment}
use filestore_hsz.Dbproxy.Sql.{Clock}
use filestore_hsz.Dbproxy.Client.Delivery.{direct}
use filestore_hsz.Mq.{Amqp, init_channel, publish}
use filestore_hsz.Mq.Lifecycle.{
  Notices, Process, started, within, init, Steps, here, followed, initialised, published, moved,
}
use filestore_hsz.Mq.Lifecycle.Closed.{ClosedLaws, closed_for_good}
use filestore_hsz.Mq.Host.{read_flags}
use filestore_hsz.Mq.Listen.{Queue, message, waiting}
use filestore_hsz.Upload.Services.{Files, Publish, TransferJson}
use filestore_hsz.Upload.Simple.{do_upload_handler}
use filestore_hsz.Upload.Simple.Saved.{local_path, handover}
use filestore_hsz.Upload.Start.{Starts, start_rpc_service_connects}
use filestore_hsz.Upload.Start as UploadService
use filestore_hsz.Download.{download_handler, range_download_handler}
use filestore_hsz.Download.Range.{range_download_handler_lem}
use filestore_hsz.Dbproxy.Start.{Driver, source_of, start_rpc_service, start_rpc_service_lem}
use filestore_hsz.Transfer.{process_transfer}
use filestore_hsz.Transfer.RoundTrip.{uploaded_file_downloads}
use filestore_hsz.Transfer.Start.{start_transfer_service, start_transfer_service_lem}
use filestore_hsz.Examples.World.{
  World, world_server, world_laws, lifted_laws, world_files, world_stores, world_disk, world_bucket,
}
use filestore_hsz.Examples.Server.{server_laws}
use filestore_hsz.Examples.Codec.{codec, codec_laws}

abbrev alice : Text
alice = b'a' ∷ b'l' ∷ b'i' ∷ b'c' ∷ b'e' ∷ []

abbrev notes : Text
notes = b'n' ∷ b'o' ∷ b't' ∷ b'e' ∷ b's' ∷ []

abbrev clock : Clock World
clock = record { now = λ w. (5, w) }

abbrev sha1 : Text → Text
sha1 t = t

abbrev nothing_stored : World
nothing_stored = (
  record { users = λ u. none; tokens = λ u. none; files = λ h. none; user_files = λ u h. none },
  (λ p. none, λ p. none),
)

-- Every file opens.
abbrev open_all : Files World
open_all = record {
  mkdir_all = λ p w. (tt, w);
  create = λ p w. (none, w);
  write = λ p b w. ((length b, none), w);
  open_file = λ p w. (none, w);
  read_all = λ p w. (ok [], w);
}

abbrev taken : Publish World
taken e k m w = (ret true, w)

-- A codec that knows one message.
abbrev transfer : TransferJson
transfer = record { marshal = λ t. t.file_hash; unmarshal = λ m. ok (handover sha1 notes alice) }

abbrev created : World
created = (world_files.create (local_path sha1 alice) nothing_stored).1

abbrev written : World
written = (world_files.write (local_path sha1 alice) alice created).1

uploaded_file_downloads_example :
    (w' w'' : World) × (do_upload_handler codec
        (direct world_server clock codec codec_laws)
        clock
        world_files
        world_stores
        taken
        transfer
        sha1
        (λ n. [])
        (ok (record { filename = notes; content = ok alice }))
        alice
        nothing_stored
      ≡ (ret (json 200 (pos 0) (bytes "上传成功") none), w'))
    × (process_transfer codec
          (direct world_server clock codec codec_laws)
          world_files
          world_stores
          transfer
          (transfer.marshal (handover sha1 notes alice))
          w'
        ≡ (ret true, w''))
    × (download_handler codec
          (direct world_server clock codec codec_laws)
          world_stores
          (digest sha1 alice)
          alice
          w''
        ≡ (ret (named 200 (bytes "application/octect-stream") notes alice), w''))
unfolding is_utf8mb3 ends_in_blank lifted_laws server_laws world_files world_stores world_disk
    world_bucket digest
uploaded_file_downloads_example =
    uploaded_file_downloads world_server world_laws clock codec codec_laws (λ v. refl) world_files
      world_stores world_disk world_bucket taken transfer sha1 (λ n. []) alice notes alice true
      nothing_stored created written written refl refl refl refl refl refl refl
      (λ v. (_, refl, refl))
      (record { prepares = λ q w h. h; execs = λ q args w h. h; reads = λ w h. h })
      (record { prepares = λ q w h. h; execs = λ q args w h. h; reads = λ w h. h }) (omega arith)
      ((omega arith, refl), refl) (omega arith, refl) (omega arith, refl) refl refl refl refl refl
      refl (λ v. (refl, refl))

-- A broker whose channel is open or closed.
abbrev broker : Amqp Bool
broker = record {
  Channel = Unit {0};
  Connection = Unit {0};
  dial = λ url w. (ok tt, w);
  open_channel = λ c w. (ok tt, w);
  publish = λ c e k m w. (if w then none else some (bytes "channel/connection is not open"), w);
}

abbrev notices : Notices broker
notices = record { NotifyChan = Unit {0}; register = λ c n w. (tt, w); receive = λ n w. none }

-- The broker may close the channel.
abbrev Closes : Bool → Bool → Type 0
Closes w w' = w' ≡ false

closed_laws : ClosedLaws broker notices Closes (λ c w. w ≡ false)
closed_laws = record {
  refuses = λ c e k m w h. (bytes "channel/connection is not open", w, rw h refl, h);
  register_keeps = λ c n w h. h;
  moves_keep = λ c w w' move h. move;
}

abbrev connected : Process broker notices
connected = (init broker notices (started broker notices true)).1

abbrev shut : Process broker notices
shut = record connected { world = false }

connects : Steps broker notices Closes (started broker notices true) shut
unfolding init init_channel
connects = followed (followed here (initialised {q = connected} refl)) (moved false refl refl)

closed_for_good_example :
    (shut.vars.channel ≡ some tt)
    × ((within broker notices (publish broker (bytes "e") (bytes "k") (bytes "m")) shut).0
        ≡ ret false)
unfolding init init_channel publish
closed_for_good_example =
    closed_for_good broker notices Closes (λ c w. w ≡ false) closed_laws tt true shut shut connects
      refl refl (followed here (published (bytes "e") (bytes "k") (bytes "m") false refl))
      (bytes "e") (bytes "k") (bytes "m")

abbrev queue : Queue broker
queue = record {
  Deliveries = Unit {0};
  subscribe = λ c q n w. (ok tt, w);
  next = λ d w. (message [], w);
  close = λ c w. (tt, w);
}

abbrev cli : Cli
cli = record {
  string =
      λ declared given name. get_or (find_flag name given) (get_or (find_flag name declared) []);
}

cli_laws : CliLaws cli
cli_laws = record {
  given_wins = λ declared given name v there. rw there refl;
  own_value = λ declared given name v absent there. rw (absent, there) refl;
}

start_transfer_service_lem_example :
    (((read_flags broker notices cli ((bytes "mqhost", alice) ∷ [])
          >> start_transfer_service broker notices queue)
        (started broker notices true)).0
      ≡ ret (some (waiting tt)))
    × ((start_transfer_service broker notices queue (started broker notices true)).0
        ≡ ret (some (waiting tt)))
start_transfer_service_lem_example =
    start_transfer_service_lem broker notices queue cli cli_laws ((bytes "mqhost", alice) ∷ []) true

-- A server that answers, opened at a source.
abbrev driver : Driver Text
driver = record {
  Handle = Unit {0};
  open_db = λ source w. (some tt, source);
  set_max = λ db w. (tt, w);
  ping = λ db w. (none, w);
}

start_rpc_service_lem_example :
    start_rpc_service driver cli ((bytes "mqhost", alice) ∷ []) []
    ≡ (ret (some tt), source_of (bytes "127.0.0.1:13306"))
unfolding text_eq bytes
start_rpc_service_lem_example =
    start_rpc_service_lem driver cli cli_laws ((bytes "mqhost", alice) ∷ []) []

-- Nobody has the file, and it is sent.
range_download_handler_lem_example :
    range_download_handler codec
      (direct world_server clock codec codec_laws)
      world_stores
      open_all
      notes
      alice
      nothing_stored
    ≡ (ret (attachment (merge_local_root_dir ++ notes) []), nothing_stored)
unfolding lifted_laws server_laws
range_download_handler_lem_example =
    range_download_handler_lem world_server world_laws clock codec codec_laws world_stores open_all
      notes alice none nothing_stored nothing_stored refl refl
      (record {
        user = refl;
        hash = refl;
        name = refl;
        uploaded = refl;
        updated = refl;
        size = (refl, refl);
      })
      refl

start_rpc_service_connects_example :
    Starts broker notices (bytes "amqp://guest:guest@" ++ alice ++ bytes "/") (some tt) (
      UploadService.start_rpc_service broker notices cli
        ((bytes "mqhost", alice) ∷ [])
        (started broker notices true))
unfolding bytes text_eq
start_rpc_service_connects_example =
    start_rpc_service_connects broker notices cli cli_laws ((bytes "mqhost", alice) ∷ []) true
