-- ===== src/Dbproxy/Orm.antt =====
-- service/dbproxy/orm: one SQL statement a function.
pub mod Statement
pub mod File
pub mod User
pub mod UserFile
pub mod Spec
