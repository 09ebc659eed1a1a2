-- ===== src/Upload.antt =====
-- The upload service, service/upload/api.
pub mod Disk
pub mod Services
pub mod Simple
pub mod Fast
pub mod Multipart
pub mod Route
pub mod Start
