-- ===== src/ProtobufServer/Message.antt =====
-- What the session takes from the class MsgData, which protoc generates from msg.proto.
pub mod Fields
use boost_learn.Base.{ℕ, List, ◌++◌}
use boost_learn.Base.Text.{codes}

-- `parse` is ParseFromString, with what the message holds afterwards whether the text is accepted or
-- not; `serialize` is SerializeToString of a message with the id and the data.
pub record MsgData : Type 1 where
  pub Msg : Type 0
  pub parse : List ℕ → Msg
  pub id : Msg → ℕ
  pub text : Msg → List ℕ
  pub serialize : ℕ → List ℕ → List ℕ

-- The answer to a message, in Session::handle_read.
unfoldable pub reply : MsgData → List ℕ → List ℕ
reply proto body =
    let msgdata = proto.parse body in
    let return_str = codes "server has received msg, msg data is " ++ proto.text msgdata in
    proto.serialize (proto.id msgdata) return_str
