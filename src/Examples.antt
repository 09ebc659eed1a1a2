-- ===== src/Examples.antt =====
-- Every property at a concrete input, over a MySQL server in memory, a plain codec and a plain gin.
pub mod Server
pub mod Codec
pub mod World
mod Database
mod Requests
mod Sessions
mod Uploads
mod Spec
mod Flow
mod Routes
mod Client
mod Journey
mod Resumed
