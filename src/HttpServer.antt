-- ===== src/HttpServer.antt =====
-- beast_http_server/beast_http_server.cpp: a small HTTP server on Boost.Beast.
pub mod Message
pub mod Handler
pub mod Status
pub mod Count
pub mod Email
pub mod Connect
pub mod Accept
pub mod Deadline
mod Tests
