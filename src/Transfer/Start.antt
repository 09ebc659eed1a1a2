-- ===== src/Transfer/Start.antt =====
-- service/transfer/main.go, `startTranserService`: how the service comes to listen.
use filestore_hsz.Prelude.{◌≡◌, refl, Text, bytes, Option, none, some, Bool, true, false, inl, inr}
use filestore_hsz.Go.{Result, ok, err, Exit, ret, panic, Go, pure, ◌>>=◌, ◌>>◌}
use filestore_hsz.Go.Laws.{Result-cases}
use filestore_hsz.Common.{async_transfer_enable, trans_oss_queue_name, rabbit_url_default}
use filestore_hsz.Common.Flags.{Flags, find_flag, Cli, CliLaws}
use filestore_hsz.Mq.{Amqp, init_channel}
use filestore_hsz.Mq.Lifecycle.{Notices, Process, started, init}
use filestore_hsz.Mq.Host.{started_at, read_flags, read_flags_lem, broker_url}
use filestore_hsz.Mq.Listen.{Queue, Subscribed, fatal, waiting, start_consume}

module _ {W : Type 0} (mq : Amqp W) (notices : Notices mq) (queue : Queue mq) where
  open mq use {Channel, Connection}
  open queue use {Deliveries}

  listen : Go (Process mq notices) (Option (Subscribed Deliveries))
  listen = do
    init mq notices
    s ← start_consume mq notices queue trans_oss_queue_name (bytes "transfer_oss")
    pure (some s)

  start_if : Bool → Go (Process mq notices) (Option (Subscribed Deliveries))
  start_if false p = (ret none, p)
  start_if true p = listen p

  -- `startTranserService`, up to its wait; `none` where the transfer is switched off.
  unfoldable pub start_transfer_service : Go (Process mq notices) (Option (Subscribed Deliveries))
  unfolding start_if listen
  start_transfer_service = start_if async_transfer_enable

  -- What comes of the subscription.
  abbrev pub of_subscription : Result Deliveries × W → Exit (Option (Subscribed Deliveries))
  of_subscription (err e, w) = ret (some (fatal e))
  of_subscription (ok d, w) = ret (some (waiting d))

  abbrev pub of_channel : Result Channel × W → Exit (Option (Subscribed Deliveries))
  of_channel (err e, w) = panic
  of_channel (ok c, w) =
      of_subscription (
        queue.subscribe c trans_oss_queue_name (bytes "transfer_oss") (notices.register c none w).1)

  abbrev pub of_dial : Result Connection × W → Exit (Option (Subscribed Deliveries))
  of_dial (err e, w) = panic
  of_dial (ok conn, w) = of_channel (mq.open_channel conn w)

  start_at :
      (url : Text) (w : W)
      → (start_transfer_service (started_at mq notices url w)).0 ≡ of_dial (mq.dial url w)
  unfolding start_transfer_service init init_channel start_consume
  start_at url w = elim (Result-cases (mq.dial url w)) [
    | inr (e, w', no_broker) ↦ rw no_broker refl
    | inl (conn, w', dials) ↦ elim (Result-cases (mq.open_channel conn w')) [
      | inr (e, w'', no_channel) ↦ rw (dials, no_channel) refl
      | inl (c, w'', opens) ↦
          elim (Result-cases (
            queue.subscribe c trans_oss_queue_name (bytes "transfer_oss")
              (notices.register c none w'').1)) [
                | inr (e, u, refused) ↦ rw (dials, opens, refused) refl
                | inl (d, u, subscribes) ↦ rw (dials, opens, subscribes) refl
              ]
    ]
  ]

  -- The transfer service dials the broker, opens a channel and subscribes to the queue of transfers: it
  -- waits for messages if all of that succeeds, ends the program if the subscription is refused, and
  -- panics if the broker cannot be dialled or gives no channel. It starts in a goroutine of its own: if
  -- that runs after the flags are read, the address is the one given for `mqhost`, 127.0.0.1 if none is
  -- given and the declared one if an empty host is given; if it runs before, the address is the declared
  -- one, whatever is given. The command line is read as it is documented.
  pub start_transfer_service_lem :
      (cli : Cli) (laws : CliLaws cli) (given : Flags) (w : W)
      → (((read_flags mq notices cli given >> start_transfer_service) (started mq notices w)).0
          ≡ of_dial (mq.dial (broker_url (find_flag (bytes "mqhost") given)) w))
        × ((start_transfer_service (started mq notices w)).0
            ≡ of_dial (mq.dial rabbit_url_default w))
  start_transfer_service_lem cli laws given w = (
    rw (read_flags_lem mq notices cli laws given w)
        (start_at (broker_url (find_flag (bytes "mqhost") given)) w),
    start_at rabbit_url_default w,
  )
