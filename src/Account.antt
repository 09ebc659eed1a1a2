-- ===== src/Account.antt =====
-- The account service, service/account/handler.
pub mod User
pub mod UserFile
