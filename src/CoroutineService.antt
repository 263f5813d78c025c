-- ===== src/CoroutineService.antt =====
-- CoroutineService/: the server whose sessions read in a coroutine, and its pool of contexts.
pub mod Const
pub mod Socket
pub mod CSession
pub mod LogicSystem
pub mod CServer
pub mod Main
pub mod Served
pub mod IoServicePool
mod Tests
