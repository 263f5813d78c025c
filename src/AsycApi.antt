-- ===== src/AsycApi.antt =====
-- AsycApi/: a session that tries the ways of Boost.Asio to write and to read.
pub mod MsgNode
pub mod Session
mod Tests
