-- ===== src/Upload/Start.antt =====
-- service/upload/main.go, `startRPCService`: the flags, and the channel to the broker.
use filestore_hsz.Prelude.{◌≡◌, refl, Text, bytes, Option, none, some, inl, inr}
use filestore_hsz.Go.{Result, ok, err, Exit, ret, Go, ◌>>◌}
use filestore_hsz.Go.Laws.{Result-cases}
use filestore_hsz.Common.Flags.{Flags, find_flag, Cli, CliLaws}
use filestore_hsz.Mq.{Amqp, init_channel}
use filestore_hsz.Mq.Lifecycle.{Notices, Process, started, init}
use filestore_hsz.Mq.Host.{started_at, read_flags, read_flags_lem, broker_url}

module _ {W : Type 0} (mq : Amqp W) (notices : Notices mq) where
  open mq use {Channel, Connection}

  -- `startRPCService` from the reading of the flags to `mq.Init`; `dbproxy.Init` between them makes a client.
  unfoldable pub start_rpc_service : Cli → Flags → Go (Process mq notices) (Unit {0})
  start_rpc_service cli given = do read_flags mq notices cli given; init mq notices

  -- The channel that a dial comes to.
  abbrev pub channel_of_open : Result Channel × W → Option Channel
  channel_of_open (err e, w) = none
  channel_of_open (ok c, w) = some c

  abbrev pub channel_of_dial : Result Connection × W → Option Channel
  channel_of_dial (err e, w) = none
  channel_of_dial (ok conn, w) = channel_of_open (mq.open_channel conn w)

  -- A start leaves the process with a channel, or without one, and with one goroutine that waits.
  abbrev pub Starts : Text → Option Channel → Exit (Unit {0}) × Process mq notices → Type 0
  Starts url c x =
      (x.0 ≡ ret tt) × (x.1.vars.channel ≡ c) × (x.1.vars.rabbit_url ≡ url) × (x.1.listeners ≡ 1)

  init_at :
      (url : Text) (w : W)
      → Starts url (channel_of_dial (mq.dial url w)) (init mq notices (started_at mq notices url w))
  unfolding init init_channel
  init_at url w = elim (Result-cases (mq.dial url w)) [
    | inr (e, w', no_broker) ↦ rw no_broker (refl, refl, refl, refl)
    | inl (conn, w', dials) ↦ elim (Result-cases (mq.open_channel conn w')) [
      | inr (e, w'', no_channel) ↦ rw (dials, no_channel) (refl, refl, refl, refl)
      | inl (c, w'', opens) ↦ rw (dials, opens) (refl, refl, refl, refl)
    ]
  ]

  -- The upload service starts whether or not the broker is there: it holds the channel that a dial of the
  -- address by the flags comes to, and none where the dial or the opening of the channel fails. The
  -- address is the one given for `mqhost`, 127.0.0.1 if none is given and the declared one if an empty
  -- host is given. The command line is read as it is documented.
  pub start_rpc_service_connects :
      (cli : Cli) (laws : CliLaws cli) (given : Flags) (w : W)
      → Starts
          (broker_url (find_flag (bytes "mqhost") given))
          (channel_of_dial (mq.dial (broker_url (find_flag (bytes "mqhost") given)) w))
          (start_rpc_service cli given (started mq notices w))
  unfolding start_rpc_service
  start_rpc_service_connects cli laws given w =
      rw (read_flags_lem mq notices cli laws given w)
        (init_at (broker_url (find_flag (bytes "mqhost") given)) w)
