-- ===== src/CoroutineService/CSession.antt =====
-- CoroutineService/CSession.h and CSession.cpp: the session whose coroutine reads a head and then
-- its body, each whole. The nodes are those of AsyncServer/MsgNode: the two directories have the
-- same classes, with `_total_len` for `_max_len`. What the session asks of the rest of the program
-- is a list of effects, in order.
pub mod Round
pub mod Receive
pub mod Ends
pub mod Sending
pub mod Queue
pub mod Cleared
pub mod Same
use boost_learn.Base.{
  ℕ, zero, suc, ◌+◌, List, [], ◌∷◌, ◌++◌, Bool, true, false, Option, none, some, ltb, ◌==◌,
  if◌then◌else◌, set, length,
}
use boost_learn.Memory.{overwrite}
use boost_learn.Platform.{Platform, exceeds}
use boost_learn.AsyncServer.MsgNode.{MsgNode, RecvNode, SendNode, recv_node, new_node, clear, ◌>>=◌}
use boost_learn.AsyncServer.Session.{read_short}
use boost_learn.CoroutineService.Const.{max_length, head_total_len}
use boost_learn.CoroutineService.Socket.{Socket}

pub data Effect : Type 0 where
  post_msg_to_que : RecvNode → Effect
  clear_server : ℕ → Effect
  close_socket : Effect

-- `recv_msg_node` is null until the first head has come.
pub record CSession : Type 0 where
  pub uuid : ℕ
  pub recv_head_node : MsgNode
  pub send_que : List SendNode
  pub recv_msg_node : Option RecvNode
  pub b_close : Bool

-- CSession::CSession
unfoldable pub new_session : Platform → ℕ → Option CSession
unfolding new_node
new_session p uuid = do
  head ← new_node p head_total_len
  some (record {
    uuid = uuid;
    recv_head_node = head;
    send_que = [];
    recv_msg_node = none;
    b_close = false;
  })

-- The state that CSession::Close leaves; the socket's part is `close_socket`.
abbrev pub closed : CSession → CSession
closed s = record s { b_close = true }

-- How a call ends, with its effects so far. `reading`: the fuel ran out.
pub data Outcome : Type 0 where
  returned : CSession → List Effect → Outcome
  reading : CSession → List Effect → Outcome
  fault : List Effect → Outcome

abbrev pub after : List Effect → Outcome → Outcome
after es (returned s fs) = returned s (es ++ fs)
after es (reading s fs) = reading s (es ++ fs)
after es (fault fs) = fault (es ++ fs)

-- The branches for a read of no byte.
abbrev pub peer_closed : CSession → Outcome
peer_closed s = returned (closed s) (clear_server s.uuid ∷ close_socket ∷ [])

-- catch (std::exception& e)
abbrev pub caught : CSession → Outcome
caught s = returned (closed s) (close_socket ∷ clear_server s.uuid ∷ [])

-- What `async_read` writes into the node's buffer.
abbrev pub fill : MsgNode → List ℕ → MsgNode
fill node bs = record node { chars = overwrite node.chars 0 bs 0 (length bs) }

module _ (sock : Socket) where
  -- What follows `co_await`, by what the read brings.
  unfoldable pub co_await :
      CSession → Option (List ℕ × sock.State) → (List ℕ → sock.State → Outcome) → Outcome
  co_await s none go = caught s
  co_await s (some (bs, st)) go = if length bs == 0 then peer_closed s else go bs st

  -- `rest` is the loop that follows the round.
  unfoldable pub read_body :
      (CSession → sock.State → Outcome) → CSession → RecvNode → sock.State → Outcome
  unfolding co_await
  read_body rest s recv st =
      co_await (record s { recv_msg_node = some recv }) (sock.async_read st recv.node.max_len)
        λ bs st'.
          let full = fill recv.node bs in
          let ended = record full { chars = set full.chars full.max_len 0 } in
          let done = record recv { node = ended } in
          after (post_msg_to_que done ∷ []) (rest (record s { recv_msg_node = some done }) st')

  -- `new char[max_len + 1]`: no char at all for the length -1, so that the terminator is written out
  -- of bounds; a size below that throws.
  unfoldable pub make_recv :
      (CSession → sock.State → Outcome) → CSession → ℕ → Option RecvNode → sock.State → Outcome
  unfolding read_body
  make_recv rest s msg_len none st = if msg_len == 65535 then fault [] else caught s
  make_recv rest s msg_len (some recv) st = read_body rest s recv st

  module _ (p : Platform) where
    unfoldable pub parse_head : (CSession → sock.State → Outcome) → CSession → sock.State → Outcome
    unfolding recv_node make_recv
    parse_head rest s st =
        let msg_id = read_short p s.recv_head_node.chars 0 in
        let msg_len = read_short p s.recv_head_node.chars 2 in
        if exceeds msg_len max_length
        then returned s (clear_server s.uuid ∷ [])
        else make_recv rest s msg_len (recv_node p msg_len msg_id) st

    -- The body of the loop. Its own test of `_b_close` is the loop's.
    unfoldable pub round : (CSession → sock.State → Outcome) → CSession → sock.State → Outcome
    unfolding clear co_await parse_head
    round rest s st =
        let cleared = record s { recv_head_node = clear s.recv_head_node } in
        co_await cleared (sock.async_read st cleared.recv_head_node.max_len) λ bs st'.
          parse_head rest (record cleared { recv_head_node = fill cleared.recv_head_node bs }) st'

    -- CSession::start, the coroutine, on fuel.
    unfoldable pub start : ℕ → CSession → sock.State → Outcome
    unfolding round
    start zero s st = reading s []
    start (suc fuel) s st = elim s.b_close [
      | true ↦ returned s []
      | false ↦ round (start fuel) s st
    ]
