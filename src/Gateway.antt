-- ===== src/Gateway.antt =====
-- The API gateway, service/apiwg/handler.
pub mod Auth
pub mod User
pub mod UserFile
pub mod Route
