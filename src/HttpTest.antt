-- ===== src/HttpTest.antt =====
-- httptest/httptest.cpp: an earlier form of the HTTP server of beast_http_server.
pub mod Handler
pub mod Status
pub mod Read
pub mod Connect
pub mod Accept
mod Tests
