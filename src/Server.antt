-- ===== src/Server.antt =====
-- server/src: the HTTP server.
pub mod EventBus
pub mod Producer
pub mod Auth
pub mod Routes
pub mod Config
pub mod Submit
pub mod Reads
pub mod Inspect
