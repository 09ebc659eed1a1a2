-- ===== src/Mq/Lifecycle/Closed.antt =====
-- mq/producer.go: what follows when the broker closes the channel.
use filestore_hsz.Prelude.{◌≡◌, refl, ap, sym, ◌∙◌, Text, Option, none, some, Bool, true, false}
use mathlib.Core.Path.{subst}
use mathlib.Core.Option.{some-injective}
use filestore_hsz.Go.{Exit, ret}
use filestore_hsz.Go.Frame.{Keeps, bind-Keeps}
use filestore_hsz.Common.{async_transfer_enable}
use filestore_hsz.Mq.{Amqp, Vars, init_channel, publish, update_rabbit_host, connect, send}
use filestore_hsz.Mq.Lifecycle.{
  Notices, Process, started, within, notified, listening, initialise, init, Step, configured,
  initialised, published, moved, reconnected, Steps, here, followed, notify_if,
}

module _ {W : Type 0} (mq : Amqp W) (notices : Notices mq) (Moves : W → W → Type 0) where
  open mq use {Channel}

  -- The client refuses to publish on a channel that is closed, and a closed channel stays closed.
  pub record ClosedLaws (IsClosed : Channel → W → Type 0) : Type 0 where
    pub refuses :
        (c : Channel) (exchange routing_key msg : Text) (w : W)
        → IsClosed c w
        → (e : Text) × (w' : W) × (mq.publish c exchange routing_key msg w ≡ (some e, w'))
          × IsClosed c w'
    pub register_keeps :
        (c : Channel) (n : Option notices.NotifyChan) (w : W)
        → IsClosed c w
        → IsClosed c (notices.register c n w).1
    pub moves_keep : (c : Channel) (w w' : W) → Moves w w' → IsClosed c w → IsClosed c w'

  abbrev P : Type 0
  P = Process mq notices

  ends :
      {A : Type 0} {q : P} (I : P → Type 0) (r : Exit A) (x : Exit A × P) → x ≡ (r, q) → I x.1 → I q
  ends {A} I r x run h = subst I (ap (λ (y : Exit A × P). y.1) run) h

  -- `notifyClose` is nil.
  abbrev IsDeaf : P → Type 0
  IsDeaf p = p.notify_close ≡ none

  module _ (I : P → Type 0)
      (connects : (url : Text) → Keeps I (within mq notices (init_channel mq url)))
      (registers : Keeps I (λ p. notified mq notices p.vars.channel p))
      (listens : Keeps I (listening mq notices)) where
    notify_if-Keeps : (ready : Bool) → Keeps I (notify_if mq notices ready)
    unfolding notify_if
    notify_if-Keeps true p h = registers p h
    notify_if-Keeps false p h = h

    initialise-Keeps : (b : Bool) → Keeps I (initialise mq notices b)
    unfolding initialise
    initialise-Keeps false p h = h
    initialise-Keeps true p h =
        bind-Keeps I (within mq notices (init_channel mq p.vars.rabbit_url)) _
          (connects p.vars.rabbit_url)
          (λ ready.
            bind-Keeps I (notify_if mq notices ready) _ (notify_if-Keeps ready) (λ t. listens))
          p h

  notified-IsDeaf : (o : Option Channel) → Keeps IsDeaf (notified mq notices o)
  unfolding notified
  notified-IsDeaf none p deaf = deaf
  notified-IsDeaf (some c) p deaf = deaf

  Step-IsDeaf : {p q : P} → Step mq notices Moves p q → IsDeaf p → IsDeaf q
  unfolding init listening
  Step-IsDeaf (configured {p} {q} host run) deaf =
      ends IsDeaf _ (within mq notices (update_rabbit_host mq host) p) run deaf
  Step-IsDeaf (initialised {p} {q} run) deaf = ends IsDeaf _ (init mq notices p) run (
      initialise-Keeps IsDeaf (λ url p d. d) (λ p. notified-IsDeaf p.vars.channel p) (λ p d. d)
        async_transfer_enable p deaf)
  Step-IsDeaf (published {p} {q} e k m b run) deaf =
      ends IsDeaf _ (within mq notices (publish mq e k m) p) run deaf
  Step-IsDeaf (moved {p} {q} w move eq) deaf = ap (λ (x : P). x.notify_close) eq ∙ deaf
  Step-IsDeaf (reconnected {p} {q} n msg w b some_listener there received run) deaf = cc

  Steps-IsDeaf : {p q : P} → Steps mq notices Moves p q → IsDeaf p → IsDeaf q
  Steps-IsDeaf here deaf = deaf
  Steps-IsDeaf {p} (followed {q} {r} steps step) deaf = Step-IsDeaf step (Steps-IsDeaf steps deaf)

  module _ (IsClosed : Channel → W → Type 0) (laws : ClosedLaws IsClosed) (c : Channel) where
    -- The package holds the channel `c`, which is closed, and `notifyClose` is nil.
    pub record IsShut (p : P) : Type 0 where
      pub held : p.vars.channel ≡ some c
      pub closed : IsClosed c p.world
      pub deaf : IsDeaf p

    init_channel_held :
        (url : Text) (v : Vars Channel) (w : W)
        → v.channel ≡ some c
        → init_channel mq url (v, w) ≡ (ret true, (v, w))
    unfolding init_channel connect
    init_channel_held url v w held = rw held refl

    init_channel-IsShut : (url : Text) → Keeps IsShut (within mq notices (init_channel mq url))
    init_channel-IsShut url p h = rw (init_channel_held url p.vars p.world h.held) h

    notified-IsShut :
        (o : Option Channel) → (p : P) → o ≡ some c → IsShut p → IsShut (notified mq notices o p).1
    unfolding notified
    notified-IsShut none p there h = h
    notified-IsShut (some d) p there h = record {
      held = h.held;
      closed =
          let same = some-injective d c there in
          subst (λ (x : Channel). IsClosed x (notices.register d p.notify_close p.world).1) same
            (laws.register_keeps d p.notify_close p.world
              (subst (λ (x : Channel). IsClosed x p.world) (sym same) h.closed));
      deaf = h.deaf;
    }

    publish_refused :
        (exchange routing_key msg : Text) (v : Vars Channel) (w : W)
        → v.channel ≡ some c
        → IsClosed c w
        → (w' : W) × (publish mq exchange routing_key msg (v, w) ≡ (ret false, (v, w')))
          × IsClosed c w'
    unfolding publish send
    publish_refused exchange routing_key msg v w held closed =
        let (e, w', run, still) = laws.refuses c exchange routing_key msg w closed in
        (w', rw (init_channel_held v.rabbit_url v w held, held, run) refl, still)

    Step-IsShut : {p q : P} → Step mq notices Moves p q → IsShut p → IsShut q
    unfolding init listening update_rabbit_host
    Step-IsShut (configured {p} {q} host run) h =
        ends IsShut _ (within mq notices (update_rabbit_host mq host) p) run
          (record { held = h.held; closed = h.closed; deaf = h.deaf })
    Step-IsShut (initialised {p} {q} run) h = ends IsShut _ (init mq notices p) run (
        initialise-Keeps IsShut init_channel-IsShut
          (λ p h. notified-IsShut p.vars.channel p h.held h)
          (λ p h. record { held = h.held; closed = h.closed; deaf = h.deaf }) async_transfer_enable
          p h)
    Step-IsShut (published {p} {q} e k m b run) h =
        ends IsShut _ (within mq notices (publish mq e k m) p) run (
          let (w', refused, still) = publish_refused e k m p.vars p.world h.held h.closed in
          rw refused (record { held = h.held; closed = still; deaf = h.deaf }))
    Step-IsShut (moved {p} {q} w move eq) h = rw eq (record {
      held = h.held;
      closed = laws.moves_keep c p.world w move h.closed;
      deaf = h.deaf;
    })
    Step-IsShut (reconnected {p} {q} n msg w b some_listener there received run) h =
        let no : ⊥ = cc in elim no [ ]

    Steps-IsShut : {p q : P} → Steps mq notices Moves p q → IsShut p → IsShut q
    Steps-IsShut here h = h
    Steps-IsShut {p} (followed {q} {r} steps step) h = Step-IsShut step (Steps-IsShut steps h)

    -- Once the channel that the process holds is closed, the process never connects again: in whatever
    -- order it is configured, initialised and asked to publish, and whatever the broker does, it keeps
    -- that channel, and each publication reports a failure.
    pub closed_for_good :
        (w : W) (p q : P)
        → Steps mq notices Moves (started mq notices w) p
        → p.vars.channel ≡ some c
        → IsClosed c p.world
        → Steps mq notices Moves p q
        → (exchange routing_key msg : Text)
        → (q.vars.channel ≡ some c)
          × ((within mq notices (publish mq exchange routing_key msg) q).0 ≡ ret false)
    closed_for_good w p q began held closed more exchange routing_key msg =
        let h =
          Steps-IsShut more
            (record { held = held; closed = closed; deaf = Steps-IsDeaf began refl }) in
        let (w', refused, still) =
          publish_refused exchange routing_key msg q.vars q.world h.held h.closed in
        (h.held, ap (λ (x : Exit Bool × (Vars Channel × W)). x.0) refused)
