-- ===== src/Lib.antt =====
-- filestore-hsz is a distributed file store: a gateway, an account service, upload, download and transfer
-- services, and a proxy that alone talks to MySQL. This library models their Go code and proves what it
-- does, each operation a function on an explicit world.
--
-- The world. A call is a computation `Go W A` (Go.antt): it runs against a world `W` of services, and
-- returns or panics; what it wrote before a panic stays written. What is not in the repository is a
-- parameter over `W`: MySQL (`Sql` in Dbproxy/Sql.antt), the clock, redis, files, object stores, RabbitMQ,
-- the shell, gin's context, and go-micro's generated clients. Where a theorem needs such a service to do
-- what it is documented to do, the documentation is a record of laws that the theorem takes: `MySql`
-- (Dbproxy/Mysql.antt, over the tables of Dbproxy/Mysql/Rows.antt, the schema of doc/table.sql),
-- `JsonLaws` (Dbproxy/Json.antt), `GinLaws`
-- (Gateway/Auth.antt), `RedisLaws` (Upload/Multipart/Flow/Hash.antt), `RouterLaws` (Http/Router.antt),
-- `DiskLaws` (Upload/Disk.antt), `BucketLaws` (Transfer/Storage.antt), `ClosedLaws` (Mq/Lifecycle/Closed.antt) and
-- `CliLaws` (Common/Flags.antt).
-- Examples/Server.antt and Examples/Codec.antt implement the first two, and the other files under Examples
-- implement the rest and apply the theorems listed below.
--
-- The abstract machine. Dbproxy/Orm/Spec has twelve requests, one for each SQL function but four that only
-- read (`GetFileMetaList`, `GetUserInfo`, `QueryUserFileMeta`, `QueryUserFileMetas`), each with its answer
-- and its effect on the tables; Refines and Batch are about the code against it, History about any
-- sequence of requests.
--
-- The parts.
-- Go/Float.antt: float64 where sizes are divided.
-- Go/Strconv.antt: formatting and parsing of integers by the standard library, with its round trips.
-- Common.antt, Util.antt, Http.antt: common/code.go, common/store.go, common/flags.go, config/*.go,
--   util/util.go, util/file.go, util/shell.go, util/resp.go, and what a handler
--   answers. Go/Frame.antt is what a call keeps of its world.
-- Dbproxy: service/dbproxy. Orm (orm/file.go, orm/user.go, orm/userfile.go) has a function for each SQL
--   function; Conn is `ParseRows` of conn/conn.go with the one map that it shares; Mapper is `FuncCall`
--   of mapper/mapper.go; Rpc is `ExecuteAction` of rpc/proxy.go; Client is client/client.go and client/sort.go;
--   Start is
--   `startRPCService` of main.go with `InitDBConn`.
-- Account: service/account/handler (`Signup`, `Signin`, `GenToken`, `UserFiles` and the others).
-- Gateway: service/apiwg/handler (`HTTPInterceptor`, `IsTokenValid`, and the handlers of user.go and
--   user_file.go).
-- Upload: service/upload/api. Simple is `DoUploadHandler`, Fast is `TryFastUploadHandler`, and Multipart
--   has the three handlers of mpupload.go, a module each, over the keys and counts of Keys; its Flow is a
--   session from its start over the parts that are sent, a step relation on `UploadPartHandler`, to its
--   completion. Start is `startRPCService` of service/upload/main.go.
-- Download: service/download/api/download.go, with Range for `RangeDownloadHandler`. Store:
--   store/oss/oss_conn.go and store/ceph/conn.go. Cache.antt: cache/redis/conn.go.
-- Transfer: service/transfer/main.go; Start is `startTranserService` with the flags that
--   Mq/Host.antt reads beside it, Served and RoundTrip follow a file from the upload over the
--   transfer to the download.
-- Routes: Http/Router.antt is gin's engine as a parameter and what a list of registrations makes of it;
--   Gateway/Route, Upload/Route and Download/Route are `Router` of service/apiwg/route/router.go,
--   service/upload/route/router.go and service/download/route/router.go.
-- Mpupload: test/mpupload, the client that uploads in parts. Choose is the choice of the chunks in
--   `uploadFile`, Parts the loop of `uploadPartsSpecified` over the file, Transfer its goroutines and its
--   channel as a step relation, Session and Runs the requests and the three runs up to that call, Main
--   the runs to their end. Resume is the client's choice against the session of the upload service, and
--   Delivered and Completes are its goroutines against the handlers.
-- Mq: mq/conn.go, mq/producer.go, mq/consumer.go, mq/define.go. Lifecycle is the package's variables and
--   `Init` as a state machine, Listen `StartConsume` and `StopConsume`.
--
-- How they interact. A handler calls a function of Client, which sends one action through its `Stub`;
-- `execute_action` decodes it, calls the SQL function of that name, and marshals the result. `direct`
-- (Dbproxy/Client/Delivery.antt) is the stub that delivers, and with it the theorems on Orm carry over to
-- the account service, the gateway and the transfer service. An upload publishes a message that `consume`
-- hands to `process_transfer`.
--
-- Bounds. A text is a list of bytes, and an SQL text is the source's, byte by byte. int64 and int32 are
-- integers, cut where the source converts. `digits` of Go/Strconv.antt has as fuel the number plus one,
-- more than its digits. A quotient of float64 (Go/Float.antt) is rounded as the language says; its fuel of
-- 85 is enough for any divisor below 2 ^ 33. A text fits a column of the database if it is short enough and
-- UTF-8 of at most three bytes a character, as the connection's charset says, and for a char column has no
-- blank at its end (Dbproxy/Mysql/Charset.antt). The consumer's endless loop is a function of the list of
-- its messages, and a step relation beside what else the process does. A client's loop over a file is a
-- function of what its reads return till the end.
--
-- Not modelled. Registering the services with go-micro, what redigo makes of its pool, the generated
-- protocol code, logging, the expiry of a session in redis, and the flags Sequence and Transaction, which
-- the proxy does not read. Handlers that run at the same time are not interleaved, only the client's
-- goroutines and those of the message queue are. In Mpupload a part that is longer than its buffer is a
-- panic before any part is sent.
pub mod Prelude
pub mod Go
pub mod Common
pub mod Cache
pub mod Util
pub mod Http
pub mod Dbproxy
pub mod Account
pub mod Gateway
pub mod Mq
pub mod Upload
pub mod Download
pub mod Transfer
pub mod Store
pub mod Mpupload
pub mod Examples
