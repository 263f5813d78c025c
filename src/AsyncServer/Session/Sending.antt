-- ===== src/AsyncServer/Session/Sending.antt =====
-- AsyncServer/Session.cpp, the way out: `Session`, `start`, the two `Send` and `handle_write`. Each
-- runs under `_send_lock`, but for the first line of `Send`, which is taken here with the rest.
-- `none` is a fault: a node that cannot be made, or `pop` of an empty queue.
use boost_learn.Base.{
  ℕ, List, [], ◌∷◌, ◌++◌, Bool, true, false, Option, none, some, ltb, if◌then◌else◌, length,
}
use boost_learn.Memory.{memset_zero}
use boost_learn.Platform.{Platform}
use boost_learn.AsyncServer.Const.{max_length, max_sendque, head_total_len}
use boost_learn.AsyncServer.MsgNode.{SendNode, new_node, send_node, ◌>>=◌}
use boost_learn.AsyncServer.Session.{Session, Effect, async_read_some}

-- What `Send` and `handle_write` ask for.
pub data Writing : Type 0 where
  async_write : SendNode → Writing
  clear_server : ℕ → Writing

abbrev pub front {ℓ} : {A : Type ℓ} → List A → Option A
front [] = none
front (x ∷ xs) = some x

-- Session::Session. `pending` and `chars` are what the new object's memory holds.
unfoldable pub new_session : Platform → ℕ → Bool → List ℕ → Option Session
unfolding new_node
new_session p uuid pending chars = do
  head ← new_node p head_total_len
  some (record {
    uuid = uuid;
    recv_head_node = head;
    b_head_parse = false;
    recv_msg_node = none;
    buffer = chars;
    send_queue = [];
    send_pending = pending;
  })

-- Session::start
unfoldable pub start : Session → Session × List Effect
start s = (record s { buffer = memset_zero s.buffer max_length }, async_read_some ∷ [])

-- `async_write` of the front of the queue
abbrev write_front : Session → Option (Session × List Writing)
write_front s = do node ← front s.send_queue; some (s, async_write node ∷ [])

module _ (p : Platform) where
  -- The part of `Send` behind the test for a full queue.
  unfoldable pub enqueue : Session → List ℕ → ℕ → ℕ → Option (Session × List Writing)
  unfolding send_node
  enqueue s msg len msg_id = do
    node ← send_node p msg len msg_id
    let pushed = record s { send_queue = s.send_queue ++ node ∷ [] }
    if pushed.send_pending then some (pushed, []) else write_front pushed

  -- Session::Send(char*, int, short)
  unfoldable pub send : Session → List ℕ → ℕ → ℕ → Option (Session × List Writing)
  unfolding enqueue
  send s msg len msg_id =
      let idle = record s { send_pending = false } in
      let send_que_size = length s.send_queue in
      if ltb max_sendque send_que_size
      then some (idle, [])
      else enqueue (if ltb 0 send_que_size then record idle { send_pending = true } else idle) msg
          len msg_id

  -- Session::Send(std::string, short)
  unfoldable pub send_string : Session → List ℕ → ℕ → Option (Session × List Writing)
  unfolding enqueue
  send_string s msg msg_id =
      let idle = record s { send_pending = false } in
      let send_que_size = length s.send_queue in
      if ltb max_sendque send_que_size
      then some (idle, [])
      else enqueue (if ltb 0 send_que_size then record idle { send_pending = true } else idle) msg
          (length msg) msg_id

-- `pop` and the write of what is then in front
abbrev write_next : Session → List SendNode → Option (Session × List Writing)
write_next s [] = none
write_next s (done ∷ rest) =
    let popped = record s { send_queue = rest } in
    if ltb 0 (length rest) then write_front popped else some (popped, [])

-- Session::handle_write
unfoldable pub handle_write : Session → Bool → Option (Session × List Writing)
handle_write s ec = if ec then some (s, clear_server s.uuid ∷ []) else write_next s s.send_queue
