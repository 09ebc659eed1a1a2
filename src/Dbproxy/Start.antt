-- ===== src/Dbproxy/Start.antt =====
-- service/dbproxy/main.go, service/dbproxy/config/db.go and `InitDBConn` of service/dbproxy/conn/conn.go:
-- how the proxy comes to its connection.
use filestore_hsz.Prelude.{
  ◌≡◌, refl, Text, bytes, [], ◌∷◌, ◌++◌, Option, none, some, text_eq, inl, inr, Option-cases,
}
use filestore_hsz.Go.{Exit, ret, panic, Go, pure, call, ◌>>=◌, ◌>>◌}
use filestore_hsz.Common.Flags.{Flags, find_flag, custom_flags, Cli, CliLaws}

-- `database/sql`: `Open`, whose error is dropped and leaves a nil handle, and `Ping`.
pub record Driver (W : Type 0) : Type 1 where
  pub Handle : Type 0
  pub open_db : Text → W → Option Handle × W
  pub set_max : Handle → W → Unit {0} × W
  pub ping : Handle → W → Option Text × W

abbrev pub source_of : Text → Text
source_of host = bytes "root:123456@tcp(" ++ host ++ bytes ")/fileserver?charset=utf8"

-- `MySQLSource` as it is declared
abbrev pub mysql_source : Text
mysql_source = source_of (bytes "192.168.20.143:13306")

-- `UpdateDBHost`, as the action of the flags calls it.
unfoldable pub dbhost_action : Text → Text → Text
dbhost_action [] source = source
dbhost_action (b ∷ host) source = source_of (b ∷ host)

-- The source that the proxy opens, by what was given for `dbhost`.
abbrev pub opened_source : Option Text → Text
opened_source none = source_of (bytes "127.0.0.1:13306")
opened_source (some []) = mysql_source
opened_source (some (b ∷ host)) = source_of (b ∷ host)

host_given : (host : Text) → dbhost_action host mysql_source ≡ opened_source (some host)
unfolding dbhost_action
host_given [] = refl
host_given (b ∷ host) = refl

own_host : find_flag (bytes "dbhost") custom_flags ≡ some (bytes "127.0.0.1:13306")
unfolding custom_flags text_eq bytes
own_host = refl

host_of_flag : dbhost_action (bytes "127.0.0.1:13306") mysql_source ≡ opened_source none
unfolding dbhost_action bytes
host_of_flag = refl

source_chosen :
    (cli : Cli) (laws : CliLaws cli) (given : Flags)
    → dbhost_action (cli.string custom_flags given (bytes "dbhost")) mysql_source
      ≡ opened_source (find_flag (bytes "dbhost") given)
source_chosen cli laws given = elim (Option-cases (find_flag (bytes "dbhost") given)) [
  | inl absent ↦
      rw (absent, laws.own_value custom_flags given (bytes "dbhost") _ absent own_host) host_of_flag
  | inr (host, there) ↦
      rw (there, laws.given_wins custom_flags given (bytes "dbhost") host there) (host_given host)
]

module _ {W : Type 0} (driver : Driver W) where
  open driver use {Handle}

  -- `none` where the program exits.
  pinged : Handle → Option Text → Option Handle
  pinged db (some e) = none
  pinged db none = some db

  connect : Option Handle → Go W (Option Handle)
  connect none w = (panic, w)
  connect (some db) w =
      (do call (driver.set_max db); e ← call (driver.ping db); pure (pinged db e)) w

  unfoldable pub init_db_conn : Text → Go W (Option Handle)
  unfolding connect pinged
  init_db_conn source = do db ← call (driver.open_db source); connect db

  -- `startRPCService`, up to the registration of the handlers.
  unfoldable pub start_rpc_service : Cli → Flags → Go W (Option Handle)
  start_rpc_service cli given =
      init_db_conn (dbhost_action (cli.string custom_flags given (bytes "dbhost")) mysql_source)

  abbrev pub of_ping : Handle → Option Text × W → Exit (Option Handle) × W
  of_ping db (some e, w) = (ret none, w)
  of_ping db (none, w) = (ret (some db), w)

  abbrev pub of_open : Option Handle × W → Exit (Option Handle) × W
  of_open (none, w) = (panic, w)
  of_open (some db, w) = of_ping db (driver.ping db (driver.set_max db w).1)

  connect-ping : (db : Handle) (e : Option Text) (w : W) → pure (pinged db e) w ≡ of_ping db (e, w)
  unfolding pinged
  connect-ping db none w = refl
  connect-ping db (some e) w = refl

  init_db_conn_lem : (x : Option Handle × W) → connect x.0 x.1 ≡ of_open x
  unfolding connect
  init_db_conn_lem (none, w) = refl
  init_db_conn_lem (some db, w) =
      let r = driver.ping db (driver.set_max db w).1 in connect-ping db r.0 r.1

  -- The proxy's start opens the database at the host that is given for `dbhost`, at the flag's own value
  -- 127.0.0.1:13306 if none is given, and at the declared source only if an empty host is given. It
  -- panics if the handle cannot be made, exits if the server does not answer, and goes on with the
  -- handle otherwise. The command line is read as it is documented.
  pub start_rpc_service_lem :
      (cli : Cli) (laws : CliLaws cli) (given : Flags) (w : W)
      → start_rpc_service cli given w
        ≡ of_open (driver.open_db (opened_source (find_flag (bytes "dbhost") given)) w)
  unfolding start_rpc_service init_db_conn
  start_rpc_service_lem cli laws given w =
      rw (source_chosen cli laws given)
        (init_db_conn_lem (driver.open_db (opened_source (find_flag (bytes "dbhost") given)) w))
