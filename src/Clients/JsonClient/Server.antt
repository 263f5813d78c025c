-- ===== src/Clients/JsonClient/Server.antt =====
-- The request of the client at the server of AsyncServer, and its answer at the client.
use boost_learn.Base.{
  ℕ, ◌≤◌, ◌≡◌, refl, sym, ap, ◌∙◌, List, [], ◌∷◌, ◌++◌, some, arith, length, All, false, take_all,
  append-nil, append_assoc, subst,
}
use boost_learn.Platform.{Platform, to_short, IsByte, IsShort}
use boost_learn.Json.{Json, data_key}
use boost_learn.Json.Answer.{IsRequest}
use boost_learn.AsyncServer.MsgNode.{RecvNode, SendNode}
use boost_learn.AsyncServer.MsgNode.Contents.{contents}
use boost_learn.AsyncServer.MsgNode.Encoding.{wire, send_node_lem}
use boost_learn.AsyncServer.Session.{
  Session, handle_read, Outcome, returned, spinning, fault, deliver, post_msg_to_que, clear_server,
  async_read_some,
}
use boost_learn.AsyncServer.Session.Decode.{Message, message, head, waiting, with_events}
use boost_learn.AsyncServer.Session.Stream.{encode, encode_all, messages, encode_head}
use boost_learn.AsyncServer.Session.View.{observe, view_message, IsReadingHead}
use boost_learn.AsyncServer.Session.Receive.{handle_read-encode_all}
use boost_learn.AsyncServer.Session.Sending.{send_string, async_write}
use boost_learn.AsyncServer.LogicSystem.{LogicNode, dispatch, received_prefix}
use boost_learn.AsyncServer.LogicSystem.Callbacks.{dispatch_request, msg_data}
use boost_learn.CoroutineService.Socket.Bytes.{received}
use boost_learn.Clients.JsonClient.{send_data, read_reply}
use boost_learn.Clients.JsonClient.Exchange.{send_data-encode, read_reply-encode}

-- A call that is seen to post one message has posted its node.
observed_one :
    (o : Outcome) (m : Message)
    → observe o ≡ with_events (message m ∷ []) (waiting (head []))
    → (s : Session) × (r : RecvNode) × (o ≡ returned s (post_msg_to_que r ∷ async_read_some ∷ []))
      × (view_message r ≡ m)
observed_one (returned s (post_msg_to_que r ∷ async_read_some ∷ [])) m e =
    let events = ap (λ t. t.events) e in (s, r, refl, cc)
observed_one (returned s []) m e = let events = ap (λ t. t.events) e in cc
observed_one (returned s (async_read_some ∷ es)) m e = let events = ap (λ t. t.events) e in cc
observed_one (returned s (clear_server u ∷ es)) m e = let events = ap (λ t. t.events) e in cc
observed_one (returned s (post_msg_to_que r ∷ [])) m e = let events = ap (λ t. t.events) e in cc
observed_one (returned s (post_msg_to_que r ∷ post_msg_to_que r' ∷ es)) m e =
    let events = ap (λ t. t.events) e in cc
observed_one (returned s (post_msg_to_que r ∷ clear_server u ∷ es)) m e =
    let events = ap (λ t. t.events) e in cc
observed_one (returned s (post_msg_to_que r ∷ async_read_some ∷ f ∷ es)) m e =
    let events = ap (λ t. t.events) e in cc
observed_one (spinning s es) m e = let pending = ap (λ t. t.pending) e in cc
observed_one (fault es) m e = let pending = ap (λ t. t.pending) e in cc

send_string-first :
    (p : Platform) (t : Session) (msg : List ℕ) (i : ℕ)
    → t.send_queue ≡ []
    → IsShort i
    → length msg ≤ 32763
    → (t' : Session) × (n : SendNode) × (send_string p t msg i ≡ some (t', async_write n ∷ []))
      × (wire n ≡ encode_head i (length msg) ++ msg)
unfolding send_string
send_string-first p t msg i idle short fits =
    let (n, made, sent) = send_node_lem p msg (length msg) i short fits (omega arith) in
    (
      record t { send_pending = false; send_queue = n ∷ [] },
      n,
      rw (idle, made) refl,
      sent ∙ ap (λ t. encode_head i (length msg) ++ t) (take_all (length msg) msg (omega arith)),
    )

module _ (json : Json) (p : Platform) (request : List ℕ) where
  abbrev root : json.Value
  root = json.parse request

  -- What the two programs do, from the request to the end of the reply.
  pub record Exchanged (s t : Session) (i : ℕ) (text more : List ℕ) : Type 0 where
    pub sent : List ℕ
    pub sends : send_data p request ≡ some sent
    pub reading : Session
    pub node : RecvNode
    pub posts :
        handle_read p 2 (deliver s sent) false (length sent)
        ≡ returned reading (post_msg_to_que node ∷ async_read_some ∷ [])
    pub changed : json.Value
    pub assigned : json.assign root data_key (received_prefix ++ text) ≡ some changed
    pub replies :
        dispatch json (record { recvnode = node; session = s.uuid })
        ≡ some (
            record { session = s.uuid; msg = json.to_styled_string changed; msgid = to_short i }
            ∷ [])
    pub sending : Session
    pub answer_node : SendNode
    pub writes :
        send_string p t (json.to_styled_string changed) (to_short i)
        ≡ some (sending, async_write answer_node ∷ [])
    pub reads :
        read_reply received p (wire answer_node ++ more)
        ≡ some ((to_short i, json.to_styled_string changed), more)

  bytes-encode :
      All IsByte request
      → length request ≤ 2044
      → All IsByte (encode (record { msg_id = 1001; body = request }))
  bytes-encode bytes fits = (omega arith, (omega arith, (omega arith, (omega arith, bytes))))

  request_posted :
      (s : Session)
      → IsReadingHead s
      → contents s.recv_head_node ≡ []
      → All IsByte request
      → length request ≤ 2044
      → observe (
          handle_read p 2
            (deliver s (encode (record { msg_id = 1001; body = request })))
            false
            (length (encode (record { msg_id = 1001; body = request }))))
        ≡ with_events (message (record { msg_id = 1001; body = request }) ∷ []) (waiting (head []))
  unfolding encode_all messages
  request_posted s v kept bytes fits =
      let m : Message = record { msg_id = 1001; body = request } in
      let whole : contents s.recv_head_node ++ encode m ≡ encode m = ap (λ t. t ++ encode m) kept in
      handle_read-encode_all p s (encode m) (m ∷ []) [] v
        (record { some_come = omega arith; room = omega (arith, fits) })
        (subst (All IsByte) (sym whole) (bytes-encode bytes fits))
        (whole ∙ (sym (append-nil (encode m)) ∙ sym (append-nil (encode m ++ []))))
        (record { id_fits = omega arith; len_fits = omega (arith, fits) }, tt) (omega arith)

  -- A request of at most 2044 bytes, which jsoncpp reads as an object with an int as its id and a
  -- string as its data, and whose answer has at most 2048 bytes. The client sends it as a message with
  -- the id 1001. When it comes in one read to a session that has kept no byte of a head, the session
  -- posts one node and waits for more; the logic thread answers the node to the session, with the object
  -- that has "server has received, msg data is " before its data, under its id cut to a short; a session
  -- with an empty queue writes the answer at once; and from these bytes the client reads the id and
  -- the text of the answer, and no byte behind them.
  pub request_answered :
      (s t : Session) (i : ℕ) (text more : List ℕ)
      → IsReadingHead s
      → contents s.recv_head_node ≡ []
      → t.send_queue ≡ []
      → All IsByte request
      → length request ≤ 2044
      → IsRequest json root i text
      → ((u : json.Value)
          → json.assign root data_key (received_prefix ++ text) ≡ some u
          → length (json.to_styled_string u) ≤ 2048)
      → Exchanged s t i text more
  request_answered s t i text more v kept idle bytes fits asked small =
      let m : Message = record { msg_id = 1001; body = request } in
      let (reading, node, posted, viewed) =
        observed_one (handle_read p 2 (deliver s (encode m)) false (length (encode m))) m
          (request_posted s v kept bytes fits) in
      let waiting_node : LogicNode = record { recvnode = node; session = s.uuid } in
      let body : msg_data waiting_node ≡ request = ap (λ m. m.body) viewed in
      let found =
        dispatch_request json waiting_node i text (ap (λ m. m.msg_id) viewed)
          (subst (λ b. IsRequest json (json.parse b) i text) (sym body) asked) in
      let u = found.0 in
      let assigned : json.assign root data_key (received_prefix ++ text) ≡ some u =
        sym (ap (λ b. json.assign (json.parse b) data_key (received_prefix ++ text)) body)
        ∙ found.1 in
      let answer = json.to_styled_string u in
      let short : IsShort (to_short i) = omega arith in
      let (sending, n, writes, on_wire) =
        send_string-first p t answer (to_short i) idle short (omega (arith, small u assigned)) in
      let (left, read, same) =
        read_reply-encode received p (wire n ++ more) (to_short i) answer more short
          (small u assigned)
          (ap (λ t. t ++ more) on_wire
            ∙ append_assoc (encode_head (to_short i) (length answer)) answer more) in
      record {
        sent = encode m;
        sends = send_data-encode p request fits;
        reading = reading;
        node = node;
        posts = posted;
        changed = u;
        assigned = assigned;
        replies = found.2;
        sending = sending;
        answer_node = n;
        writes = writes;
        reads = read ∙ ap (λ st. some ((to_short i, answer), st)) same;
      }
