-- ===== src/Upload/Multipart/Flow.antt =====
-- service/upload/api/mpupload.go over a redis that does what it is documented to do: a session from its
-- start over its parts to its completion.
pub mod Hash
pub mod Start
pub mod Steps
