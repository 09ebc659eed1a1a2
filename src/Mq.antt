-- ===== src/Mq.antt =====
-- mq/*.go: the RabbitMQ channel, publishing, and the consumer's loop. The broker is the parameter
-- `Amqp`; `Vars` holds the package's variables.
pub mod Lifecycle
pub mod Host
pub mod Listen
use filestore_hsz.Prelude.{
  Text, bytes, Option, none, some, Bool, true, false, List, [], ◌∷◌, ◌++◌, if◌then◌else◌,
}
use filestore_hsz.Go.{Result, ok, err, Exit, Go, pure, ◌>>=◌, ◌>>◌}
use filestore_hsz.Common.{StoreType, trans_exchange_name, trans_oss_err_routing_key}

-- mq/define.go
pub record TransferData : Type 0 where
  pub file_hash : Text
  pub cur_location : Text
  pub dest_location : Text
  pub dest_store_type : StoreType

-- `amqp.Dial`, `conn.Channel()` and `channel.Publish`. `Channel` is a channel's handle.
pub record Amqp (W : Type 0) : Type 1 where
  pub Channel : Type 0
  pub Connection : Type 0
  pub dial : Text → W → Result Connection × W
  pub open_channel : Connection → W → Result Channel × W
  -- exchange, routing key, body; the error
  pub publish : Channel → Text → Text → Text → W → Option Text × W

-- `channel`, which is nil before the first dial, and `config.RabbitURL`.
pub record Vars (Channel : Type 0) : Type 0 where
  pub channel : Option Channel
  pub rabbit_url : Text

module _ {W : Type 0} (mq : Amqp W) where
  open mq use {Channel, Connection}

  abbrev pub State : Type 0
  State = Vars Channel × W

  unfoldable pub update_rabbit_host : Text → Go State (Unit {0})
  update_rabbit_host host (v, w) =
      (Exit.ret tt, (record v { rabbit_url = bytes "amqp://guest:guest@" ++ host ++ bytes "/" }, w))

  -- `channel, err = conn.Channel()`: an error leaves a nil channel.
  opened : Vars Channel → Result Channel × W → Exit Bool × State
  opened v (ok c, w) = (Exit.ret true, (record v { channel = some c }, w))
  opened v (err e, w) = (Exit.ret false, (record v { channel = none }, w))

  dialled : Vars Channel → Result Connection × W → Exit Bool × State
  dialled v (err e, w) = (Exit.ret false, (v, w))
  dialled v (ok conn, w) = opened v (mq.open_channel conn w)

  connect : Option Channel → Text → Go State Bool
  connect (some c) rabbit_host s = (Exit.ret true, s)
  connect none rabbit_host (v, w) = dialled v (mq.dial rabbit_host w)

  unfoldable pub init_channel : Text → Go State Bool
  unfolding connect dialled opened
  init_channel rabbit_host s = connect s.0.channel rabbit_host s

  send : Option Channel → Text → Text → Text → Go State Bool
  send none exchange routing_key msg s = (Exit.panic, s)
  send (some c) exchange routing_key msg (v, w) =
      let (e, w') = mq.publish c exchange routing_key msg w in
      (Exit.ret (elim e [ none ↦ true | some m ↦ false ]), (v, w'))

  unfoldable pub publish : Text → Text → Text → Go State Bool
  unfolding init_channel send
  publish exchange routing_key msg s =
      let url = s.0.rabbit_url in
      (do
        ready ← init_channel url
        if ready then (λ t. send t.0.channel exchange routing_key msg t) else pure false)
        s

  -- The reconnection after `notifyClose`.
  unfoldable pub on_close : Go State Bool
  unfolding init_channel
  on_close (v, w) = init_channel v.rabbit_url (record v { channel = none }, w)

-- `StartConsume`: each message is acknowledged as it is taken, handed to the callback, and sent to
-- the queue of errors where that fails.
module _ {W : Type 0} (publish_message : Text → Text → Text → Go W Bool)
    (callback : Text → Go W Bool) where
  unfoldable pub consume_one : Text → Go W (Unit {0})
  consume_one msg = do
    done ← callback msg
    if done
        then pure tt
        else do publish_message trans_exchange_name trans_oss_err_routing_key msg; pure tt

  unfoldable pub consume : List Text → Go W (Unit {0})
  consume [] = pure tt
  consume (msg ∷ msgs) = do consume_one msg; consume msgs
