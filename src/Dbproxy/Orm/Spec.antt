-- ===== src/Dbproxy/Orm/Spec.antt =====
-- What service/dbproxy/orm promises: an abstract machine over the tables, without statements, rows or
-- errors of a connection.
pub mod Requests
pub mod Refines
pub mod Batch
pub mod Invariant
pub mod History
