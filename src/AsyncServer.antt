-- ===== src/AsyncServer.antt =====
-- AsyncServer/: the asynchronous server with message ids, its send queue and its logic thread.
pub mod Const
pub mod MsgNode
pub mod Session
pub mod LogicSystem
pub mod Server
pub mod Main
pub mod Served
mod Tests
