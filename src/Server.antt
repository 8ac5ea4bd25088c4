-- ===== src/Server.antt =====
-- src/server_threaded.c and src/server_threaded.h.
pub mod World
pub mod Client
pub mod Accept
pub mod Balance
pub mod Request
pub mod Reading
pub mod Connection
pub mod Clean
pub mod Release
pub mod Replies
pub mod Logins
pub mod Rejections
pub mod Main
pub mod Shutdown
mod Examples
