-- ===== src/EchoServers.antt =====
-- The two servers that send back what they read: a thread for each client, and a coroutine.
pub mod Client
pub mod SyncServer
pub mod Coroutine
pub mod Same
pub mod TestClient
pub mod Exchange
mod Tests
