-- ===== src/AsyncServer/LogicSystem.antt =====
-- AsyncServer/LogicSystem.h and LogicSystem.cpp: the logic thread. Its queue is that of WorkQueue;
-- here are the callbacks, by message id, and what they send.
pub mod Callbacks
mod Tests
use boost_learn.Base.{ℕ, ◌==◌, List, [], ◌∷◌, Option, none, some, if◌then◌else◌, take}
use boost_learn.Json.{Json, answer, ◌>>=◌}
use boost_learn.WorkQueue.{Logic, post, stop, start}
use boost_learn.AsyncServer.Const.{msg_hello_world}
use boost_learn.AsyncServer.MsgNode.{RecvNode}

-- A session is named by its uuid.
pub record LogicNode : Type 0 where
  pub recvnode : RecvNode
  pub session : ℕ

-- session->Send(msg, msgid)
pub record Reply : Type 0 where
  pub session : ℕ
  pub msg : List ℕ
  pub msgid : ℕ

-- FunCallBack: the session, the id and the data.
abbrev pub FunCallBack : Type 0
FunCallBack = ℕ → ℕ → List ℕ → Option (List Reply)

-- "server has received, msg data is "
abbrev pub received_prefix : List ℕ
received_prefix =
    115 ∷ 101 ∷ 114 ∷ 118 ∷ 101 ∷ 114 ∷ 32 ∷ 104 ∷ 97 ∷ 115 ∷ 32 ∷ 114 ∷ 101 ∷ 99 ∷ 101 ∷ 105 ∷ 118
    ∷ 101 ∷ 100 ∷ 44 ∷ 32 ∷ 109 ∷ 115 ∷ 103 ∷ 32 ∷ 100 ∷ 97 ∷ 116 ∷ 97 ∷ 32 ∷ 105 ∷ 115 ∷ 32 ∷ []

-- _fun_callbacks.find(msg_id)
unfoldable pub find_callback : List (ℕ × FunCallBack) → ℕ → Option FunCallBack
find_callback [] msg_id = none
find_callback ((k, f) ∷ rest) msg_id =
    let later = find_callback rest msg_id in if k == msg_id then some f else later

-- call_back_iter->second(...)
unfoldable pub call_back : Option FunCallBack → LogicNode → Option (List Reply)
call_back none node = some []
call_back (some f) node =
    let recv = node.recvnode in f node.session recv.msg_id (take recv.node.cur_len recv.node.chars)

module _ (json : Json) where
  unfoldable pub hello_world_callback : FunCallBack
  unfolding answer
  hello_world_callback session msg_id msg_data = do
    sent ← answer json received_prefix msg_data
    some (record { session = session; msg = sent.0; msgid = sent.1 } ∷ [])

  unfoldable pub register_callback : List (ℕ × FunCallBack)
  unfolding hello_world_callback
  register_callback = (msg_hello_world, hello_world_callback) ∷ []

  -- What `DealMsg` does with the front of the queue.
  unfoldable pub dispatch : LogicNode → Option (List Reply)
  unfolding register_callback find_callback call_back
  dispatch node = call_back (find_callback register_callback node.recvnode.msg_id) node

-- LogicSystem::PostMsgToQue
unfoldable pub post_msg_to_que : Logic LogicNode Reply → LogicNode → Logic LogicNode Reply
unfolding post
post_msg_to_que l node = post l node
