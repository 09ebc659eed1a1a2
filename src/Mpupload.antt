-- ===== src/Mpupload.antt =====
-- The client that uploads a file in parts, test/mpupload.
pub mod Choose
pub mod Parts
pub mod Transfer
pub mod Delivered
pub mod Session
pub mod Runs
pub mod Resume
pub mod Completes
pub mod Main
