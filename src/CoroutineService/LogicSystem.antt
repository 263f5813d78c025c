-- ===== src/CoroutineService/LogicSystem.antt =====
-- CoroutineService/LogicSystem.h and LogicSystem.cpp: the logic thread of the second server. Its
-- queue is that of WorkQueue; a callback is given `_total_len` chars of a node.
pub mod Callbacks
use boost_learn.Base.{ℕ, List, [], ◌∷◌, Option, none, some, take}
use boost_learn.Json.{Json, answer, ◌>>=◌}
use boost_learn.WorkQueue
use boost_learn.WorkQueue.{Logic, post}
use boost_learn.AsyncServer.LogicSystem.{LogicNode, Reply, FunCallBack, find_callback}
use boost_learn.CoroutineService.Const.{msg_helloworld}

-- "server is received msg ,msg data is "
abbrev pub received_prefix : List ℕ
received_prefix =
    115 ∷ 101 ∷ 114 ∷ 118 ∷ 101 ∷ 114 ∷ 32 ∷ 105 ∷ 115 ∷ 32 ∷ 114 ∷ 101 ∷ 99 ∷ 101 ∷ 105 ∷ 118 ∷ 101
    ∷ 100 ∷ 32 ∷ 109 ∷ 115 ∷ 103 ∷ 32 ∷ 44 ∷ 109 ∷ 115 ∷ 103 ∷ 32 ∷ 100 ∷ 97 ∷ 116 ∷ 97 ∷ 32 ∷ 105
    ∷ 115 ∷ 32 ∷ []

unfoldable pub call_back : Option FunCallBack → LogicNode → Option (List Reply)
call_back none node = some []
call_back (some f) node =
    let recv = node.recvnode in f node.session recv.msg_id (take recv.node.max_len recv.node.chars)

module _ (json : Json) where
  unfoldable pub hello_world_callback : FunCallBack
  unfolding answer
  hello_world_callback session msg_id msg_data = do
    sent ← answer json received_prefix msg_data
    some (record { session = session; msg = sent.0; msgid = sent.1 } ∷ [])

  unfoldable pub register_callback : List (ℕ × FunCallBack)
  unfolding hello_world_callback
  register_callback = (msg_helloworld, hello_world_callback) ∷ []

  unfoldable pub dispatch : LogicNode → Option (List Reply)
  unfolding register_callback find_callback call_back
  dispatch node = call_back (find_callback register_callback node.recvnode.msg_id) node

  -- LogicSystem::DealMsg, from the moment that the worker holds the mutex, on fuel
  unfoldable pub deal_msg : ℕ → Logic LogicNode Reply → Logic LogicNode Reply
  unfolding WorkQueue.deal_msg dispatch
  deal_msg fuel l = WorkQueue.deal_msg dispatch fuel l

-- LogicSystem::LogicSystem
unfoldable pub start : Logic LogicNode Reply
unfolding WorkQueue.start
start = WorkQueue.start

-- LogicSystem::PostMsgToQue
unfoldable pub post_msg_to_que : Logic LogicNode Reply → LogicNode → Logic LogicNode Reply
unfolding post
post_msg_to_que l node = post l node
