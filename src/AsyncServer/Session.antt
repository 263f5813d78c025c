-- ===== src/AsyncServer/Session.antt =====
-- AsyncServer/Session.h and Session.cpp: the state of a session and `handle_read`, which cuts the
-- incoming bytes into messages. What it asks of the rest of the program (arm another read, hand a
-- message to the logic system, drop the session) is returned as a list of effects, in order.
-- Printing to the console is left out.
pub mod Decode
pub mod Append
pub mod View
pub mod Posted
pub mod Body
pub mod Head
pub mod Stream
pub mod Rest
pub mod Invariant
pub mod Receive
pub mod Fragment
pub mod Split
pub mod Sending
pub mod Link
pub mod Outbox
pub mod Delivery
pub mod Order
pub mod Framing
use boost_learn.Base.{
  ℕ, zero, suc, ◌+◌, ◌-◌, List, [], ◌∷◌, ◌++◌, Bool, true, false, Option, none, some, ltb, leb,
  if◌then◌else◌, get_or, set, length, drop,
}
use boost_learn.Memory.{memcpy, memset_zero}
use boost_learn.Platform.{Platform, to_short, exceeds}
use boost_learn.AsyncServer.Const.{max_length, head_total_len}
use boost_learn.AsyncServer.MsgNode.{MsgNode, RecvNode, SendNode, recv_node, clear}

-- The posted node is the session's own, but the session changes it no more: it only replaces it.
pub data Effect : Type 0 where
  async_read_some : Effect
  post_msg_to_que : RecvNode → Effect
  clear_server : ℕ → Effect

-- `buffer` is the array `_data`; `recv_msg_node` is null until the first head has come.
pub record Session : Type 0 where
  pub uuid : ℕ
  pub recv_head_node : MsgNode
  pub b_head_parse : Bool
  pub recv_msg_node : Option RecvNode
  pub buffer : List ℕ
  pub send_queue : List SendNode
  pub send_pending : Bool

-- One round of the loop of `handle_read`: a return, another round, or a fault.
pub data Round : Type 0 where
  leave : Session → List Effect → Round
  again : Session → ℕ → ℕ → List Effect → Round
  crash : Round

abbrev pub or_crash {ℓ} : {A : Type ℓ} → Option A → (A → Round) → Round
or_crash none f = crash
or_crash (some a) f = f a

-- memset(_data, 0, MAX_LENGTH); _socket.async_read_some(asio::buffer(_data, MAX_LENGTH), …)
unfoldable pub wait_for_more : Session → List Effect → Round
wait_for_more s effects =
    leave (record s { buffer = memset_zero s.buffer max_length }) (effects ++ async_read_some ∷ [])

-- memcpy(node->_data + node->_cur_len, _data + copy_len, n); node->_cur_len += n;
unfoldable pub append : MsgNode → List ℕ → ℕ → ℕ → Option MsgNode
append node buffer copy_len n = elim (memcpy node.chars node.cur_len buffer copy_len n) [
  | none ↦ none
  | some chars ↦ some (record node { chars = chars; cur_len = to_short (node.cur_len + n) })
]

-- `if (byte_transfered <= 0)`, after a message has been posted
unfoldable pub next_round : Session → ℕ → ℕ → List Effect → Round
unfolding wait_for_more
next_round s copy_len n effects =
    if leb n 0 then wait_for_more s effects else again s copy_len n effects

-- The rest of a message whose head came in an earlier read.
unfoldable pub read_rest : Session → RecvNode → ℕ → ℕ → Round
unfolding append wait_for_more next_round
read_rest s recv copy_len n =
    let remind_msg = recv.node.max_len - recv.node.cur_len in
    if ltb n remind_msg
    then (or_crash (append recv.node s.buffer copy_len n)
        λ node. wait_for_more (record s { recv_msg_node = some (record recv { node = node }) }) [])
    else (or_crash (append recv.node s.buffer copy_len remind_msg) λ node.
        let done = record recv { node = node } in
        next_round (record s { recv_msg_node = some done }) (copy_len + remind_msg) (n - remind_msg)
          (post_msg_to_que done ∷ []))

-- The message of a head that is complete.
unfoldable pub read_message : Session → RecvNode → ℕ → ℕ → ℕ → Round
unfolding append wait_for_more next_round clear
read_message s recv msg_len copy_len n =
    if ltb n msg_len
    then (or_crash (append recv.node s.buffer copy_len n) λ node.
        wait_for_more
          (record s { recv_msg_node = some (record recv { node = node }); b_head_parse = true }) [])
    else (or_crash (append recv.node s.buffer copy_len msg_len) λ node.
        let ended = record node { chars = set node.chars node.max_len 0 } in
        let done = record recv { node = ended } in
        next_round
          (record s {
            recv_msg_node = some done;
            b_head_parse = false;
            recv_head_node = clear s.recv_head_node;
          })
          (copy_len + msg_len) (n - msg_len) (post_msg_to_que done ∷ []))

module _ (p : Platform) where
  -- memcpy(&v, _data + i, 2); v = network_to_host_short(v);
  abbrev pub read_short : List ℕ → ℕ → ℕ
  read_short chars i =
      p.network_to_host_short (p.load_short (get_or chars i 0) (get_or chars (i + 1) 0))

  -- The checks of a head that is complete, and what follows it.
  unfoldable pub check_head : Session → ℕ → ℕ → ℕ → ℕ → Round
  unfolding recv_node read_message
  check_head s msg_id msg_len copy_len n =
      if exceeds msg_id max_length
      then leave s (clear_server s.uuid ∷ [])
      else (if exceeds msg_len max_length
          then leave s (clear_server s.uuid ∷ [])
          else (or_crash (recv_node p msg_len msg_id) λ recv.
              read_message (record s { recv_msg_node = some recv }) recv msg_len copy_len n))

  unfoldable pub accept_head : Session → ℕ → ℕ → Round
  unfolding check_head
  accept_head s copy_len n =
      check_head s (read_short s.recv_head_node.chars 0) (read_short s.recv_head_node.chars 2)
        copy_len n

  unfoldable pub read_head : Session → ℕ → ℕ → Round
  unfolding append wait_for_more accept_head
  read_head s copy_len n =
      let head = s.recv_head_node in
      if ltb (n + head.cur_len) head_total_len
      then (or_crash (append head s.buffer copy_len n)
          λ head'. wait_for_more (record s { recv_head_node = head' }) [])
      else (let head_remind = head_total_len - head.cur_len in
          or_crash (memcpy head.chars head.cur_len s.buffer copy_len head_remind) λ chars.
            accept_head (record s { recv_head_node = record head { chars = chars } })
              (copy_len + head_remind) (n - head_remind))

  -- The body of the loop.
  unfoldable pub round : Session → ℕ → ℕ → Round
  unfolding read_head read_rest
  round s copy_len n =
      if s.b_head_parse
      then (elim s.recv_msg_node [ none ↦ crash | some recv ↦ read_rest s recv copy_len n ])
      else read_head s copy_len n

-- How a call ends, with its effects so far. `spinning`: the fuel ran out.
pub data Outcome : Type 0 where
  returned : Session → List Effect → Outcome
  spinning : Session → List Effect → Outcome
  fault : List Effect → Outcome

abbrev pub after : List Effect → Outcome → Outcome
after es (returned s fs) = returned s (es ++ fs)
after es (spinning s fs) = spinning s (es ++ fs)
after es (fault fs) = fault (es ++ fs)

-- What a round leads to, given the loop that follows it.
unfoldable pub follow : (Session → ℕ → ℕ → Outcome) → Round → Outcome
follow loop (leave s effects) = returned s effects
follow loop (again s copy_len n effects) = after effects (loop s copy_len n)
follow loop crash = fault []

module _ (p : Platform) where
  -- while (byte_transfered > 0), on fuel
  unfoldable pub read_loop : ℕ → Session → ℕ → ℕ → Outcome
  unfolding round follow
  read_loop zero s copy_len n = spinning s []
  read_loop (suc fuel) s copy_len n =
      if ltb 0 n then follow (read_loop fuel) (round p s copy_len n) else returned s []

  -- Session::handle_read, with the error code as a test
  unfoldable pub handle_read : ℕ → Session → Bool → ℕ → Outcome
  unfolding read_loop
  handle_read fuel s ec byte_transfered =
      if ec then returned s (clear_server s.uuid ∷ []) else read_loop fuel s 0 byte_transfered

-- What the socket leaves in `_data`.
abbrev pub deliver : Session → List ℕ → Session
deliver s chunk = record s { buffer = chunk ++ drop (length chunk) s.buffer }
