-- ===== src/ProtobufServer.antt =====
-- AsyncServer_useProtobuf/: the asynchronous server whose messages are protobuf texts behind a length.
pub mod Message
pub mod MsgNode
pub mod Session
pub mod Server
mod Tests
