-- ===== src/CoroutineService/CSession/Round.antt =====
-- The rounds of the coroutine: a head, and then a body.
use boost_learn.Base.{
  ℕ, ◌+◌, ◌/◌, ◌%◌, ◌≤◌, ◌<◌, ◌≡◌, refl, ap, ◌∙◌, List, [], ◌∷◌, ◌++◌, false, some, arith, length,
  take, set, take_all, take-set, ne→==, if◌then◌else◌,
}
use boost_learn.Memory.{overwrite, take-overwrite}
use boost_learn.Platform.{Platform, IsShort, exceeds}
use boost_learn.AsyncServer.MsgNode.{RecvNode, recv_node, clear}
use boost_learn.AsyncServer.MsgNode.Contents.{
  IsValid, fresh_node, new_node-eq, clear-IsValid, fresh_node-IsValid,
}
use boost_learn.AsyncServer.Session.Decode.{Message}
use boost_learn.AsyncServer.Session.Stream.{encode_head}
use boost_learn.CoroutineService.Const.{max_length}
use boost_learn.CoroutineService.Socket.{Socket}
use boost_learn.CoroutineService.CSession.{
  CSession, post_msg_to_que, clear_server, Outcome, returned, after, fill, co_await, read_body,
  make_recv, parse_head, round,
}

-- The coroutine runs, and the head's node is the four bytes that the constructor makes it.
pub record IsOpen (s : CSession) : Type 0 where
  pub not_closed : s.b_close ≡ false
  pub head_valid : IsValid s.recv_head_node
  pub head_size : s.recv_head_node.max_len ≡ 4

-- What the callback is given of a node: `std::string(_data, _total_len)` and the id.
abbrev pub view : RecvNode → Message
view r = record { msg_id = r.msg_id; body = take r.node.max_len r.node.chars }

-- The session whose head node holds the head.
abbrev pub headed : CSession → ℕ → ℕ → CSession
headed s msg_id msg_len = record s {
  recv_head_node = fill (clear s.recv_head_node) (encode_head msg_id msg_len);
}

-- The node of a body that has come whole.
abbrev pub whole : Platform → ℕ → List ℕ → RecvNode
whole p msg_id body =
    let full = fill (fresh_node p (length body)) body in
    record { node = record full { chars = set full.chars (length body) 0 }; msg_id = msg_id }

read_short-network :
    (p : Platform) (v : ℕ)
    → IsShort v
    → p.network_to_host_short (p.load_short (v / 256) (v % 256)) ≡ v
read_short-network p v h =
    p.load_network (v / 256) (v % 256) (omega arith) (omega arith) ∙ omega arith

pub view-whole :
    (p : Platform) (m : Message) → length m.body < 32768 → view (whole p m.msg_id m.body) ≡ m
view-whole p m h =
    let n = length m.body in
    let node = fresh_node p n in
    let room : 0 + n ≤ length node.chars = omega (arith, fresh_node-IsValid p n h) in
    ap (λ t. record { msg_id = m.msg_id; body = t })
      (take-set (overwrite node.chars 0 m.body 0 n) n 0
        ∙ (ap (λ k. take k (overwrite node.chars 0 m.body 0 n)) (omega arith)
            ∙ (take-overwrite node.chars 0 m.body 0 n room (omega arith)
                ∙ take_all n m.body (omega arith))))

module _ (sock : Socket) (p : Platform) (rest : CSession → sock.State → Outcome) where
  -- A head that has come whole.
  pub round_head :
      (s : CSession) (st : sock.State) (msg_id msg_len : ℕ) (bs : List ℕ)
      → IsOpen s
      → IsShort msg_id
      → IsShort msg_len
      → sock.bytes st ≡ encode_head msg_id msg_len ++ bs
      → (st' : sock.State) × (sock.bytes st' ≡ bs)
        × (round sock p rest s st ≡ (
            if exceeds msg_len max_length
            then returned (headed s msg_id msg_len) (clear_server s.uuid ∷ [])
            else make_recv sock rest
                (headed s msg_id msg_len)
                msg_len
                (recv_node p msg_len msg_id)
                st'))
  unfolding round co_await parse_head overwrite
  round_head s st msg_id msg_len bs o hi hl e =
      let four : length (encode_head msg_id msg_len) ≡ (clear s.recv_head_node).max_len =
        omega (arith, o, clear-IsValid o.head_valid) in
      let (st', read, left) =
        sock.async_read_whole st (clear s.recv_head_node).max_len (encode_head msg_id msg_len) bs e
          four in
      (st', left, rw (read, read_short-network p msg_id hi, read_short-network p msg_len hl))

  -- A body that has come whole.
  pub read_body_whole :
      (s : CSession) (st : sock.State) (m : Message) (bs : List ℕ)
      → 0 < length m.body
      → length m.body ≤ 2048
      → sock.bytes st ≡ m.body ++ bs
      → (st' : sock.State) × (sock.bytes st' ≡ bs)
        × (make_recv sock rest s (length m.body) (recv_node p (length m.body) m.msg_id) st
            ≡ after
                (post_msg_to_que (whole p m.msg_id m.body) ∷ [])
                (rest (record s { recv_msg_node = some (whole p m.msg_id m.body) }) st'))
  unfolding make_recv read_body co_await recv_node
  read_body_whole s st m bs pos fits e =
      let (st', read, left) = sock.async_read_whole st (length m.body) m.body bs e refl in
      (
        st',
        left,
        rw (
          new_node-eq p (length m.body) (omega arith),
          read,
          ne→== (length m.body) 0 (λ h. absurd (omega arith)),
        ),
      )
