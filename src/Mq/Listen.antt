-- ===== src/Mq/Listen.antt =====
-- mq/consumer.go, `StartConsume` and `StopConsume`: the subscription, its goroutine and the wait for
-- `done`.
use filestore_hsz.Prelude.{
  ◌≡◌, refl, ap, ◌∙◌, Text, Option, none, some, Bool, true, false, List, [], ◌∷◌, ◌++◌,
}
use filestore_hsz.Go.{Result, ok, err, Exit, ret, panic, Go}
use filestore_hsz.Mq.{Amqp, Vars, publish, consume_one}
use filestore_hsz.Mq.Lifecycle.{Notices, Process, within}

-- What comes of looking for the next message: one is there, none is there yet, or there are no more.
pub data Delivery : Type 0 where
  message : Text → Delivery
  nothing_yet closed : Delivery

-- What `StartConsume` uses of the client: `channel.Consume`, the messages, and `channel.Close`.
pub record Queue {W : Type 0} (mq : Amqp W) : Type 1 where
  pub Deliveries : Type 0
  -- queue, consumer
  pub subscribe : mq.Channel → Text → Text → W → Result Deliveries × W
  pub next : Deliveries → W → Delivery × W
  pub close : mq.Channel → W → Unit {0} × W

-- How `StartConsume` ends before its wait: `log.Fatal` ends the program.
pub data Subscribed (D : Type 0) : Type 0 where
  fatal : Text → Subscribed D
  waiting : D → Subscribed D

module _ {W : Type 0} (mq : Amqp W) (notices : Notices mq) (queue : Queue mq) where
  open mq use {Channel}
  open queue use {Deliveries}

  subscribed :
      Process mq notices → Result Deliveries × W → Exit (Subscribed Deliveries) × Process mq notices
  subscribed p (err e, w) = (ret (fatal e), record p { world = w })
  subscribed p (ok d, w) = (ret (waiting d), record p { world = w })

  subscribe_on : Option Channel → Text → Text → Go (Process mq notices) (Subscribed Deliveries)
  subscribe_on none q_name c_name p = (panic, p)
  subscribe_on (some c) q_name c_name p = subscribed p (queue.subscribe c q_name c_name p.world)

  -- Up to the goroutine and the wait.
  unfoldable pub start_consume : Text → Text → Go (Process mq notices) (Subscribed Deliveries)
  unfolding subscribe_on subscribed
  start_consume q_name c_name p = subscribe_on p.vars.channel q_name c_name p

  -- Whether the loop still ranges over the messages, and whether `StartConsume` still waits.
  pub record Consumer : Type 0 where
    pub ranging : Bool
    pub blocked : Bool
    pub process : Process mq notices

  unfoldable pub close_channel : Option Channel → Go (Process mq notices) (Unit {0})
  close_channel none p = (panic, p)
  close_channel (some c) p = (ret tt, record p { world = (queue.close c p.world).1 })

  module _ (callback : Text → Go (Vars Channel × W) Bool) (deliveries : Deliveries)
      -- what else happens in the process and around it
      (Around : Process mq notices → Process mq notices → Type 0) where
    -- One step of the loop, of `StopConsume`, which `StartConsume` answers by closing the channel, or of
    -- what is around them. The first index are the messages taken.
    pub data Consumes : List Text → Consumer → Consumer → Type 0 where
      took :
          {s t : Consumer}
          → (m : Text) (w : W) (p : Process mq notices) → s.ranging ≡ true
          → queue.next deliveries s.process.world ≡ (message m, w)
          → within mq notices (consume_one (publish mq) callback m) (record s.process { world = w })
            ≡ (ret tt, p)
          → t ≡ record s { process = p }
          → Consumes (m ∷ []) s t
      ended :
          {s t : Consumer}
          → (w : W) → s.ranging ≡ true
          → queue.next deliveries s.process.world ≡ (closed, w)
          → t ≡ record s { ranging = false; process = record s.process { world = w } }
          → Consumes [] s t
      stopped :
          {s t : Consumer}
          → (p : Process mq notices) → s.blocked ≡ true
          → close_channel s.process.vars.channel s.process ≡ (ret tt, p)
          → t ≡ record s { blocked = false; process = p }
          → Consumes [] s t
      around :
          {s t : Consumer}
          → (p : Process mq notices) → Around s.process p
          → t ≡ record s { process = p }
          → Consumes [] s t

    -- The messages taken, in order.
    pub data Run (s : Consumer) : List Text → Consumer → Type 0 where
      here : Run s [] s
      followed :
          {ms ns : List Text} {t u : Consumer} → Run s ms t → Consumes ns t u → Run s (ms ++ ns) u

    Consumes-ended :
        {ns : List Text} {s t : Consumer}
        → Consumes ns s t
        → s.ranging ≡ false
        → (ns ≡ []) × (t.ranging ≡ false)
    Consumes-ended (took {s} {t} m w p on there run e) off = cc
    Consumes-ended (ended {s} {t} w on over e) off = cc
    Consumes-ended (stopped {s} {t} p on close e) off =
        (refl, ap (λ (c : Consumer). c.ranging) e ∙ off)
    Consumes-ended (around {s} {t} p on e) off = (refl, ap (λ (c : Consumer). c.ranging) e ∙ off)

    -- Once the loop over the messages has ended, no message is taken, whatever else happens.
    pub ended_for_good :
        {s : Consumer} {ms : List Text} {t : Consumer}
        → Run s ms t
        → s.ranging ≡ false
        → (ms ≡ []) × (t.ranging ≡ false)
    ended_for_good here off = (refl, off)
    ended_for_good {s = s} (followed {ms} {ns} {t} {u} run step) off =
        let (none_yet, still) = ended_for_good run off in
        let (none_now, end) = Consumes-ended step still in (rw (none_yet, none_now) refl, end)
