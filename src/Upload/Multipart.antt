-- ===== src/Upload/Multipart.antt =====
-- service/upload/api/mpupload.go: an upload in chunks, whose state is kept in redis.
pub mod Keys
pub mod Init
pub mod Part
pub mod Complete
pub mod Flow
