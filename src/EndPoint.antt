-- ===== src/EndPoint.antt =====
-- The exercises with one socket.
pub mod Stream
pub mod Calls
pub mod Whole
pub mod Programs
pub mod Codes
mod Tests
