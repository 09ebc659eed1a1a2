-- ===== src/Dbproxy.antt =====
-- The database proxy, service/dbproxy: SQL functions, their dispatch by name, and the client.
pub mod Sql
pub mod Define
pub mod Conn
pub mod Orm
pub mod Start
pub mod Mysql
pub mod Mapper
pub mod Json
pub mod Rpc
pub mod Client
