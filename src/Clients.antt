-- ===== src/Clients.antt =====
-- The client programs.
pub mod Stack
pub mod JsonClient
pub mod JsonClientForTest
pub mod ProtobufClient
pub mod SyncClient
mod Tests
