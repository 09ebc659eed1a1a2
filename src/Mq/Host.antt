-- ===== src/Mq/Host.antt =====
-- service/transfer/main.go and service/upload/main.go, the action of `startRPCService`: the broker's address
-- by the flags of the command line.
use filestore_hsz.Prelude.{
  ◌≡◌, refl, Text, bytes, Option, none, some, [], ◌∷◌, ◌++◌, inl, inr, text_eq, Option-cases,
}
use filestore_hsz.Go.{ret, Go}
use filestore_hsz.Common.{rabbit_url_default}
use filestore_hsz.Common.Flags.{Flags, find_flag, custom_flags, Cli, CliLaws, local_host}
use filestore_hsz.Mq.{Amqp, update_rabbit_host}
use filestore_hsz.Mq.Lifecycle.{Notices, Process, started, within}

-- The broker's address, by what was given for `mqhost`.
abbrev pub broker_url : Option Text → Text
broker_url none = bytes "amqp://guest:guest@" ++ local_host ++ bytes "/"
broker_url (some []) = rabbit_url_default
broker_url (some (b ∷ host)) = bytes "amqp://guest:guest@" ++ (b ∷ host) ++ bytes "/"

module _ {W : Type 0} (mq : Amqp W) (notices : Notices mq) where
  -- The process whose broker's address is `url`.
  abbrev pub started_at : Text → W → Process mq notices
  started_at url w = record (started mq notices w) {
    vars = record { channel = none; rabbit_url = url };
  }

  -- The action that runs with the flags of the command line.
  unfoldable pub mqhost_action : Text → Go (Process mq notices) (Unit {0})
  mqhost_action [] p = (ret tt, p)
  mqhost_action (b ∷ host) p = within mq notices (update_rabbit_host mq (b ∷ host)) p

  -- The action reads `c.String("mqhost")`.
  unfoldable pub read_flags : Cli → Flags → Go (Process mq notices) (Unit {0})
  read_flags cli given = mqhost_action (cli.string custom_flags given (bytes "mqhost"))

  host_given :
      (host : Text) (w : W)
      → mqhost_action host (started mq notices w) ≡ (ret tt, started_at (broker_url (some host)) w)
  unfolding mqhost_action update_rabbit_host
  host_given [] w = refl
  host_given (b ∷ host) w = refl

  own_host : find_flag (bytes "mqhost") custom_flags ≡ some local_host
  unfolding custom_flags text_eq bytes
  own_host = refl

  host_of_flag :
      (w : W)
      → mqhost_action local_host (started mq notices w) ≡ (ret tt, started_at (broker_url none) w)
  unfolding mqhost_action update_rabbit_host bytes
  host_of_flag w = refl

  pub read_flags_lem :
      (cli : Cli) (laws : CliLaws cli) (given : Flags) (w : W)
      → read_flags cli given (started mq notices w)
        ≡ (ret tt, started_at (broker_url (find_flag (bytes "mqhost") given)) w)
  unfolding read_flags
  read_flags_lem cli laws given w = elim (Option-cases (find_flag (bytes "mqhost") given)) [
    | inl absent ↦
        rw (absent, laws.own_value custom_flags given (bytes "mqhost") local_host absent own_host)
          (host_of_flag w)
    | inr (host, there) ↦
        rw (there, laws.given_wins custom_flags given (bytes "mqhost") host there)
          (host_given host w)
  ]
