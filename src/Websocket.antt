-- ===== src/Websocket.antt =====
-- beast_websocket/: a websocket server that echoes each message, its connections and the map that
-- keeps them alive.
pub mod ConnectionMgr
pub mod Connection
pub mod WebSocketServer
pub mod Link
pub mod Echo
pub mod Backlog
mod Tests
