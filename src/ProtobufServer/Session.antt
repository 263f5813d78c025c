-- ===== src/ProtobufServer/Session.antt =====
-- AsyncServer_useProtobuf/Session.h and Session.cpp: the session. As in AsyncServer/Session, what a
-- call asks of the rest of the program is a list of effects, in order, and `none` is a fault.
pub mod Whole
pub mod Frames
pub mod Replies
pub mod Body
pub mod Split
use boost_learn.Base.{
  ℕ, zero, suc, ◌+◌, ◌-◌, List, [], ◌∷◌, ◌++◌, Bool, true, false, Option, none, some, ltb, leb,
  if◌then◌else◌, set, length, get_or, take,
}
use boost_learn.Memory.{memcpy, memset_zero}
use boost_learn.Platform.{Platform, to_short, exceeds}
use boost_learn.AsyncServer.MsgNode.{MsgNode, clear, ◌>>=◌}
use boost_learn.AsyncServer.Session.{read_short}
use boost_learn.ProtobufServer.Message.{MsgData, reply}
use boost_learn.ProtobufServer.MsgNode.{send_node, recv_node, max_length, head_length, max_sendque}

pub data Effect : Type 0 where
  async_read_some : Effect
  async_write : MsgNode → Effect
  clear_server : ℕ → Effect

-- `buffer` is the array `_data`. The one thread of the server runs no callback before `start` has set
-- the head's node.
pub record Session : Type 0 where
  pub uuid : ℕ
  pub recv_head_node : MsgNode
  pub b_head_parse : Bool
  pub recv_msg_node : Option MsgNode
  pub buffer : List ℕ
  pub send_queue : List MsgNode
  pub send_pending : Bool

pub data Round : Type 0 where
  leave : Session → List Effect → Round
  again : Session → ℕ → ℕ → List Effect → Round
  crash : Round

abbrev pub or_crash {ℓ} : {A : Type ℓ} → Option A → (A → Round) → Round
or_crash none f = crash
or_crash (some a) f = f a

abbrev pub front {ℓ} : {A : Type ℓ} → List A → Option A
front [] = none
front (x ∷ xs) = some x

module _ (p : Platform) where
  -- Session::Session and Session::start, over what the new object's memory holds
  unfoldable pub start : ℕ → Bool → List ℕ → Option (Session × List Effect)
  unfolding recv_node
  start uuid pending chars = do
    head ← recv_node p head_length
    some (
      record {
        uuid = uuid;
        recv_head_node = head;
        b_head_parse = false;
        recv_msg_node = none;
        buffer = memset_zero chars max_length;
        send_queue = [];
        send_pending = pending;
      },
      async_read_some ∷ [],
    )

  -- Session::Send(char* msg, int len)
  unfoldable pub send : Session → List ℕ → ℕ → Option (Session × List Effect)
  unfolding send_node
  send s msg len =
      let send_que_size = length s.send_queue in
      if ltb max_sendque send_que_size then some (record s { send_pending = false }, []) else (do
        node ← send_node p msg (to_short len)
        let pending = ltb 0 send_que_size
        let pushed = record s { send_queue = s.send_queue ++ node ∷ []; send_pending = pending }
        first ← front pushed.send_queue
        some (pushed, if pending then [] else async_write first ∷ []))

  -- Session::Send(std::string msg)
  unfoldable pub send_string : Session → List ℕ → Option (Session × List Effect)
  unfolding send
  send_string s msg = send s msg (length msg)

-- memset(_data, 0, MAX_LENGTH); _socket.async_read_some(…)
unfoldable pub wait_for_more : Session → List Effect → Round
wait_for_more s effects =
    leave (record s { buffer = memset_zero s.buffer max_length }) (effects ++ async_read_some ∷ [])

-- memcpy(node->_data + node->_cur_len, _data + copy_len, n); node->_cur_len += n;
unfoldable pub append : MsgNode → List ℕ → ℕ → ℕ → Option MsgNode
append node buffer copy_len n = elim (memcpy node.chars node.cur_len buffer copy_len n) [
  | none ↦ none
  | some chars ↦ some (record node { chars = chars; cur_len = node.cur_len + n })
]

-- `if (byte_transfered <= 0)`, after a message
unfoldable pub next_round : Session → ℕ → ℕ → List Effect → Round
unfolding wait_for_more
next_round s copy_len n effects =
    if leb n 0 then wait_for_more s effects else again s copy_len n effects

module _ (proto : MsgData) (p : Platform) where
  -- The rest of a message whose head came in an earlier read: it is sent back as it is.
  unfoldable pub read_rest : Session → MsgNode → ℕ → ℕ → Round
  unfolding append wait_for_more next_round send
  read_rest s recv copy_len n =
      let remind_msg = recv.max_len - recv.cur_len in
      if ltb n remind_msg
      then (or_crash (append recv s.buffer copy_len n)
          λ node. wait_for_more (record s { recv_msg_node = some node }) [])
      else (or_crash (append recv s.buffer copy_len remind_msg) λ node.
          or_crash (send p (record s { recv_msg_node = some node }) node.chars node.max_len)
            λ sent. next_round sent.0 (copy_len + remind_msg) (n - remind_msg) sent.1)

  -- The answer to a message that is complete, and what follows it.
  unfoldable pub answer : Session → MsgNode → ℕ → ℕ → Round
  unfolding next_round send_string clear reply
  answer s node copy_len n =
      let ended = record node { chars = set node.chars node.max_len 0 } in
      or_crash
        (send_string p (record s { recv_msg_node = some ended })
          (reply proto (take ended.max_len ended.chars)))
        λ sent.
          let replied = sent.0 in
          next_round
            (record replied { b_head_parse = false; recv_head_node = clear replied.recv_head_node })
            copy_len n sent.1

  -- The message of a head that is complete.
  unfoldable pub read_message : Session → MsgNode → ℕ → ℕ → ℕ → Round
  unfolding append wait_for_more answer
  read_message s recv data_len copy_len n =
      if ltb n data_len
      then (or_crash (append recv s.buffer copy_len n)
          λ node. wait_for_more (record s { recv_msg_node = some node; b_head_parse = true }) [])
      else (or_crash (append recv s.buffer copy_len data_len)
          λ node. answer s node (copy_len + data_len) (n - data_len))

  unfoldable pub accept_head : Session → ℕ → ℕ → ℕ → Round
  unfolding recv_node read_message
  accept_head s data_len copy_len n =
      if exceeds data_len max_length
      then leave s (clear_server s.uuid ∷ [])
      else (or_crash (recv_node p data_len) λ recv. read_message s recv data_len copy_len n)

  unfoldable pub read_head : Session → ℕ → ℕ → Round
  unfolding append wait_for_more accept_head
  read_head s copy_len n =
      let head = s.recv_head_node in
      if ltb (n + head.cur_len) head_length
      then (or_crash (append head s.buffer copy_len n)
          λ head'. wait_for_more (record s { recv_head_node = head' }) [])
      else (let head_remind = head_length - head.cur_len in
          or_crash (memcpy head.chars head.cur_len s.buffer copy_len head_remind) λ chars.
            accept_head (record s { recv_head_node = record head { chars = chars } })
              (read_short p chars 0) (copy_len + head_remind) (n - head_remind))

  -- The body of the loop.
  unfoldable pub round : Session → ℕ → ℕ → Round
  unfolding read_head read_rest
  round s copy_len n =
      if s.b_head_parse
      then (elim s.recv_msg_node [ none ↦ crash | some recv ↦ read_rest s recv copy_len n ])
      else read_head s copy_len n

-- How a call ends, with its effects so far. `spinning`: the fuel ran out.
pub data Outcome : Type 0 where
  returned : Session → List Effect → Outcome
  spinning : Session → List Effect → Outcome
  fault : List Effect → Outcome

abbrev pub after : List Effect → Outcome → Outcome
after es (returned s fs) = returned s (es ++ fs)
after es (spinning s fs) = spinning s (es ++ fs)
after es (fault fs) = fault (es ++ fs)

unfoldable pub follow : (Session → ℕ → ℕ → Outcome) → Round → Outcome
follow loop (leave s effects) = returned s effects
follow loop (again s copy_len n effects) = after effects (loop s copy_len n)
follow loop crash = fault []

module _ (proto : MsgData) (p : Platform) where
  -- while (byte_transfered > 0), on fuel
  unfoldable pub read_loop : ℕ → Session → ℕ → ℕ → Outcome
  unfolding round follow
  read_loop zero s copy_len n = spinning s []
  read_loop (suc fuel) s copy_len n =
      if ltb 0 n then follow (read_loop fuel) (round proto p s copy_len n) else returned s []

  -- Session::handle_read
  unfoldable pub handle_read : ℕ → Session → Bool → ℕ → Outcome
  unfolding read_loop
  handle_read fuel s ec byte_transfered =
      if ec then returned s (clear_server s.uuid ∷ []) else read_loop fuel s 0 byte_transfered

-- `pop`, and the write of what is then in front
unfoldable pub write_next : Session → List MsgNode → Option (Session × List Effect)
write_next s [] = none
write_next s (sent ∷ []) = some (record s { send_queue = [] }, [])
write_next s (sent ∷ next ∷ rest) =
    some (record s { send_queue = next ∷ rest }, async_write next ∷ [])

-- Session::handle_write
unfoldable pub handle_write : Session → Bool → Option (Session × List Effect)
unfolding write_next
handle_write s ec = if ec then some (s, clear_server s.uuid ∷ []) else write_next s s.send_queue
