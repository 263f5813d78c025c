-- ===== src/Clients/JsonClient/Coroutine.antt =====
-- The request of the client at the server of CoroutineService, and its answer at the client.
use boost_learn.Base.{
  ℕ, suc, ◌≤◌, ◌<◌, ◌≡◌, refl, sym, ap, ◌∙◌, List, [], ◌∷◌, ◌++◌, Option, none, some, arith, length,
  append_assoc, take_all,
}
use boost_learn.Platform.{Platform, to_short, IsShort}
use boost_learn.Json.{Json, data_key}
use boost_learn.Json.Answer.{IsRequest}
use boost_learn.AsyncServer.MsgNode.{RecvNode, SendNode}
use boost_learn.AsyncServer.MsgNode.Encoding.{wire}
use boost_learn.AsyncServer.Session.Decode.{Message}
use boost_learn.AsyncServer.Session.Stream.{encode, encode_head}
use boost_learn.CoroutineService.Socket.{Socket}
use boost_learn.CoroutineService.Socket.Bytes.{received}
use boost_learn.CoroutineService.CSession.{CSession, post_msg_to_que, after, start}
use boost_learn.CoroutineService.CSession.Round.{IsOpen, whole, view-whole}
use boost_learn.CoroutineService.CSession.Receive.{start_message}
use boost_learn.CoroutineService.CSession.Sending.{async_write, send, send_string}
use boost_learn.CoroutineService.CSession.Queue.{send_lem, first_write}
use boost_learn.CoroutineService.LogicSystem.{dispatch, received_prefix}
use boost_learn.CoroutineService.LogicSystem.Callbacks.{dispatch_message}
use boost_learn.Clients.JsonClient.{send_data, read_reply}
use boost_learn.Clients.JsonClient.Exchange.{send_data-encode, read_reply-encode}

abbrev bytes_or_none : Option (List ℕ) → List ℕ
bytes_or_none o = elim o [ none ↦ [] | some bs ↦ bs ]

module _ (json : Json) (p : Platform) (sock : Socket) (request : List ℕ) where
  abbrev root : json.Value
  root = json.parse request

  -- What the two programs do, from the request to the end of the reply. `st` is the server's socket
  -- before the request, and `behind` what the client sends after it.
  pub record Exchanged (s t : CSession) (fuel : ℕ) (st : sock.State) (i : ℕ)
      (text more behind : List ℕ) : Type 0 where
    pub waiting : CSession
    pub at : sock.State
    pub open_still : IsOpen waiting
    pub unread : sock.bytes at ≡ behind
    pub node : RecvNode
    pub posts :
        start sock p (suc fuel) s st
        ≡ after (post_msg_to_que node ∷ []) (start sock p fuel waiting at)
    pub changed : json.Value
    pub assigned : json.assign root data_key (received_prefix ++ text) ≡ some changed
    pub replies :
        dispatch json (record { recvnode = node; session = s.uuid })
        ≡ some (
            record { session = s.uuid; msg = json.to_styled_string changed; msgid = to_short i }
            ∷ [])
    pub sending : CSession
    pub answer_node : SendNode
    pub writes :
        send_string p t (json.to_styled_string changed) (to_short i)
        ≡ some (sending, async_write answer_node ∷ [])
    pub reads :
        read_reply received p (wire answer_node ++ more)
        ≡ some ((to_short i, json.to_styled_string changed), more)

  send_string-first :
      (t : CSession) (msg : List ℕ) (i : ℕ)
      → t.send_que ≡ []
      → IsShort i
      → length msg ≤ 2048
      → (t' : CSession) × (n : SendNode) × (send_string p t msg i ≡ some (t', async_write n ∷ []))
        × (wire n ≡ encode (record { msg_id = i; body = msg }))
  unfolding send_string
  send_string-first t msg i idle short fits =
      let len = length msg in
      let same : to_short len ≡ len = omega arith in
      let none_waits : length t.send_que ≡ 0 = ap length idle in
      let (n, on_wire, sent) =
        send_lem p t msg len i short (omega (arith, fits)) (omega arith)
          (omega (arith, none_waits)) in
      (
        record t { send_que = t.send_que ++ n ∷ [] },
        n,
        ap (λ k. send p t msg k i) same
            ∙ (sent
                ∙ ap (λ q. some (record t { send_que = t.send_que ++ n ∷ [] }, first_write q n))
                    idle),
        on_wire
            ∙ ap (λ b. encode (record { msg_id = i; body = b })) (take_all len msg (omega arith)),
      )

  -- A request of 1 to 2044 bytes, which jsoncpp reads as an object with an int as its id and a string
  -- as its data, and whose answer has at most 2048 bytes. When the bytes that the client sends are the
  -- next on the socket of an open session, the coroutine takes them and no more, posts one node, and
  -- goes on as an open session; the logic thread answers the node to the session, with the object that
  -- has "server is received msg ,msg data is " before its data, under its id cut to a short; a session
  -- with an empty queue writes the answer at once; and from these bytes the client reads the id and the
  -- text of the answer, and no byte behind them.
  pub request_served :
      (s t : CSession) (fuel : ℕ) (st : sock.State) (sent : List ℕ) (i : ℕ)
      (text more behind : List ℕ)
      → IsOpen s
      → t.send_que ≡ []
      → 0 < length request
      → length request ≤ 2044
      → send_data p request ≡ some sent
      → sock.bytes st ≡ sent ++ behind
      → IsRequest json root i text
      → ((u : json.Value)
          → json.assign root data_key (received_prefix ++ text) ≡ some u
          → length (json.to_styled_string u) ≤ 2048)
      → Exchanged s t fuel st i text more behind
  request_served s t fuel st sent i text more behind o idle not_empty fits sends coming asked
        small =
      let m : Message = record { msg_id = 1001; body = request } in
      let same : encode m ≡ sent =
        ap bytes_or_none (sym (send_data-encode p request fits) ∙ sends) in
      let (waiting, at, o', kept, unread, posted) =
        start_message sock p fuel s st m behind o
          (record { id_fits = omega arith; not_empty = not_empty; len_fits = omega (arith, fits) })
          (coming ∙ ap (λ b. b ++ behind) (sym same)) in
      let node = whole p 1001 request in
      let (u, assigned, replies) =
        dispatch_message json (record { recvnode = node; session = s.uuid }) m i text
          (view-whole p m (omega (arith, fits))) refl asked in
      let answer = json.to_styled_string u in
      let short : IsShort (to_short i) = omega arith in
      let (sending, n, writes, on_wire) =
        send_string-first t answer (to_short i) idle short (small u assigned) in
      let (left, read, rest) =
        read_reply-encode received p (wire n ++ more) (to_short i) answer more short
          (small u assigned)
          (ap (λ t. t ++ more) on_wire
            ∙ append_assoc (encode_head (to_short i) (length answer)) answer more) in
      record {
        waiting = waiting;
        at = at;
        open_still = o';
        unread = unread;
        node = node;
        posts = posted;
        changed = u;
        assigned = assigned;
        replies = replies;
        sending = sending;
        answer_node = n;
        writes = writes;
        reads = read ∙ ap (λ st. some ((to_short i, answer), st)) rest;
      }
