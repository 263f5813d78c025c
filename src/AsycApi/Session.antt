-- ===== src/AsycApi/Session.antt =====
-- AsycApi/Session.h and Session.cpp: the calls of a session, with the asynchronous calls that they
-- start, in order. `none` is a fault: a copy out of bounds, `pop` of an empty queue, or a null
-- pointer. The nodes of `writeToSocketErr` are shared with its callbacks, and are named by their
-- places in `nodes`.
pub mod ErrWrite
pub mod Queue
pub mod Reads
use boost_learn.Base.{
  ℕ, zero, suc, ◌+◌, ◌-◌, List, [], ◌∷◌, ◌++◌, Bool, true, false, Option, none, some, ltb,
  if◌then◌else◌, length, set, window, suc,
}
use boost_learn.Platform.{Platform}
use boost_learn.AsycApi.MsgNode.{MsgNode, new_send_node, new_recv_node, recvsize, ◌>>=◌}

-- An asynchronous call: the bytes that it writes, or the bytes that it has room for. Of the two
-- writes, the first calls back `writeCallBackErr` with its node, the other `writeCallBack`.
pub data Effect : Type 0 where
  write_err : List ℕ → ℕ → Effect
  async_write_some : List ℕ → Effect
  async_send : List ℕ → Effect
  async_read_some : ℕ → Effect
  async_receive : ℕ → Effect

pub record Session : Type 0 where
  pub nodes : List MsgNode
  pub send_node : Option ℕ
  pub send_queue : List MsgNode
  pub send_pending : Bool
  pub recv_node : Option MsgNode
  pub recv_pending : Bool

-- Session::Session, which does not set `_recv_pending`: its value is what the memory holds.
unfoldable pub new_session : Bool → Session
new_session recv_pending = record {
  nodes = [];
  send_node = none;
  send_queue = [];
  send_pending = false;
  recv_node = none;
  recv_pending = recv_pending;
}

unfoldable pub node_at : List MsgNode → ℕ → Option MsgNode
node_at [] i = none
node_at (n ∷ ns) zero = some n
node_at (n ∷ ns) (suc i) = node_at ns i

-- asio::buffer(node->_msg + node->_cur_len, node->_total_len - node->_cur_len)
abbrev pub rest_of : MsgNode → List ℕ
rest_of n = window n.msg n.cur_len (n.total_len - n.cur_len)

-- The part of `writeCallBackErr` for a write that was not whole.
unfoldable pub write_rest_err : Session → ℕ → Option (Session × List Effect)
unfolding node_at
write_rest_err s bytes_transferred = do
  id ← s.send_node
  node ← node_at s.nodes id
  let moved = record node { cur_len = node.cur_len + bytes_transferred }
  some (record s { nodes = set s.nodes id moved }, write_err (rest_of moved) id ∷ [])

-- Session::writeCallBackErr, which does not look at the error
unfoldable pub write_call_back_err : Session → ℕ → ℕ → Option (Session × List Effect)
unfolding node_at write_rest_err
write_call_back_err s bytes_transferred id = do
  msg_node ← node_at s.nodes id
  (if ltb (bytes_transferred + msg_node.cur_len) msg_node.total_len
      then write_rest_err s bytes_transferred
      else some (s, []))

module _ (p : Platform) where
  -- Session::writeToSocketErr
  unfoldable pub write_to_socket_err : Session → List ℕ → Option (Session × List Effect)
  unfolding new_send_node
  write_to_socket_err s buf = do
    node ← new_send_node p buf
    let id = length s.nodes
    some (
      record s { nodes = s.nodes ++ node ∷ []; send_node = some id },
      write_err (rest_of node) id ∷ [],
    )

-- `pop`, and what follows it
unfoldable pub write_next :
    Session → List MsgNode → (List ℕ → Effect) → Option (Session × List Effect)
write_next s [] again = none
write_next s (sent ∷ []) again = some (record s { send_queue = []; send_pending = false }, [])
write_next s (sent ∷ next ∷ rest) again =
    some (record s { send_queue = next ∷ rest }, again (rest_of next) ∷ [])

-- Session::writeCallBack. The number of bytes that were written is not looked at.
unfoldable pub write_call_back : Session → Bool → ℕ → Option (Session × List Effect)
unfolding write_next
write_call_back s ec bytes_transferred =
    if ec then some (s, []) else write_next s s.send_queue async_write_some

-- Session::writeAllCallBack
unfoldable pub write_all_call_back : Session → Bool → ℕ → Option (Session × List Effect)
unfolding write_next
write_all_call_back s ec bytes_transferred =
    if ec then some (s, []) else write_next s s.send_queue async_send

module _ (p : Platform) where
  -- The two calls below, by the call that they make.
  unfoldable pub write_queued :
      Session → List ℕ → (List ℕ → Effect) → Option (Session × List Effect)
  unfolding new_send_node
  write_queued s buf call = do
    node ← new_send_node p buf
    let pushed = record s { send_queue = s.send_queue ++ node ∷ [] }
    some (
        if pushed.send_pending
        then (pushed, [])
        else (record pushed { send_pending = false }, call buf ∷ []))

  -- Session::writeToSocket
  unfoldable pub write_to_socket : Session → List ℕ → Option (Session × List Effect)
  unfolding write_queued
  write_to_socket s buf = write_queued s buf async_write_some

  -- Session::writeAllToSocket, whose callback is `writeCallBack` too
  unfoldable pub write_all_to_socket : Session → List ℕ → Option (Session × List Effect)
  unfolding write_queued
  write_all_to_socket s buf = write_queued s buf async_send

  -- Session::readFromSocket
  unfoldable pub read_from_socket : Session → Session × List Effect
  unfolding new_recv_node
  read_from_socket s = if s.recv_pending then (s, []) else (
    record s { recv_node = some (new_recv_node p recvsize); recv_pending = true },
    async_read_some recvsize ∷ [],
  )

  -- Session::readAllFromSocket
  unfoldable pub read_all_from_socket : Session → Session × List Effect
  unfolding new_recv_node
  read_all_from_socket s = if s.recv_pending then (s, []) else (
    record s { recv_node = some (new_recv_node p recvsize); recv_pending = true },
    async_receive recvsize ∷ [],
  )

-- The node is let go.
abbrev released : Session → Session
released s = record s { recv_pending = false; recv_node = none }

-- Session::readCallBack. The bytes themselves are in the node already; they are not modelled.
unfoldable pub read_call_back : Session → ℕ → Option (Session × List Effect)
read_call_back s bytes_transferred = do
  node ← s.recv_node
  let cur_len = node.cur_len + bytes_transferred
  some (
    released s,
    if ltb cur_len node.total_len then async_read_some (node.total_len - cur_len) ∷ [] else [],
  )

-- Session::readAllCallBack
unfoldable pub read_all_call_back : Session → ℕ → Option (Session × List Effect)
read_all_call_back s bytes_transferred = do
  node ← s.recv_node
  let cur_len = node.cur_len + bytes_transferred
  some (
      if ltb cur_len node.total_len
      then (released s, async_receive (node.total_len - cur_len) ∷ [])
      else (record s { recv_node = some (record node { cur_len = cur_len }) }, []))
