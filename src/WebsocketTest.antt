-- ===== src/WebsocketTest.antt =====
-- websocket_test/: the websocket server of beast_websocket under other names, with another `catch`.
pub mod Connection
pub mod Same
