-- ===== src/Mq/Lifecycle.antt =====
-- mq/producer.go, `Init`, and the variables of the package: the process as a state machine. A nil
-- channel of Go is `none`, and to receive from it blocks forever.
pub mod Closed
use filestore_hsz.Prelude.{
  ℕ, suc, ◌<◌, ◌≡◌, Text, bytes, Option, none, some, Bool, true, false, if◌then◌else◌,
}
use filestore_hsz.Go.{Exit, ret, panic, Go, pure, ◌>>=◌, ◌>>◌}
use filestore_hsz.Common.{async_transfer_enable, rabbit_url_default}
use filestore_hsz.Mq.{Amqp, Vars, init_channel, publish, on_close, update_rabbit_host}

-- What `Init` uses of the broker's client beside `Amqp`: the registration of a Go channel for errors,
-- and what is received from one, if anything is there.
pub record Notices {W : Type 0} (mq : Amqp W) : Type 1 where
  pub NotifyChan : Type 0
  pub register : mq.Channel → Option NotifyChan → W → Unit {0} × W
  pub receive : NotifyChan → W → Option (Text × W)

module _ {W : Type 0} (mq : Amqp W) (notices : Notices mq) where
  open mq use {Channel}
  open notices use {NotifyChan}

  -- The package's variables, how many goroutines of `Init` there are, and the world. Nothing reads
  -- `conn`: `initChannel` declares its own.
  pub record Process : Type 0 where
    pub vars : Vars Channel
    pub notify_close : Option NotifyChan
    pub listeners : ℕ
    pub world : W

  -- The variables as they are declared: no channel is made for `notifyClose`.
  abbrev pub started : W → Process
  started w = record {
    vars = record { channel = none; rabbit_url = rabbit_url_default };
    notify_close = none;
    listeners = 0;
    world = w;
  }

  -- What runs on the package's variables and the world.
  abbrev pub within : {A : Type 0} → Go (Vars Channel × W) A → Go Process A
  within f p = let (r, s) = f (p.vars, p.world) in (r, record p { vars = s.0; world = s.1 })

  notified : Option Channel → Go Process (Unit {0})
  notified none p = (panic, p)
  notified (some c) p = (ret tt, record p { world = (notices.register c p.notify_close p.world).1 })

  listening : Go Process (Unit {0})
  listening p = (ret tt, record p { listeners = suc p.listeners })

  notify_if : Bool → Go Process (Unit {0})
  notify_if ready q = if ready then notified q.vars.channel q else (ret tt, q)

  initialise : Bool → Go Process (Unit {0})
  initialise false p = (ret tt, p)
  initialise true p =
      (do ready ← within (init_channel mq p.vars.rabbit_url); notify_if ready; listening) p

  unfoldable pub init : Go Process (Unit {0})
  unfolding initialise notify_if notified listening
  init = initialise async_transfer_enable

  -- What happens in the process and around it. `Moves` is what the broker does by itself.
  pub data Step (Moves : W → W → Type 0) : Process → Process → Type 0 where
    configured :
        {p q : Process}
        → (host : Text) → within (update_rabbit_host mq host) p ≡ (ret tt, q)
        → Step Moves p q
    initialised : {p q : Process} → init p ≡ (ret tt, q) → Step Moves p q
    published :
        {p q : Process}
        → (exchange routing_key msg : Text) (b : Bool)
        → within (publish mq exchange routing_key msg) p ≡ (ret b, q)
        → Step Moves p q
    moved :
        {p q : Process} → (w : W) → Moves p.world w → q ≡ record p { world = w } → Step Moves p q
    reconnected :
        {p q : Process}
        → (n : NotifyChan) (msg : Text) (w : W) (b : Bool) → 0 < p.listeners
        → p.notify_close ≡ some n
        → notices.receive n p.world ≡ some (msg, w)
        → within (on_close mq) (record p { world = w }) ≡ (ret b, q)
        → Step Moves p q

  pub data Steps (Moves : W → W → Type 0) (p : Process) : Process → Type 0 where
    here : Steps Moves p p
    followed : {q r : Process} → Steps Moves p q → Step Moves q r → Steps Moves p r
