-- ===== src/CoroutineService/CSession/Ends.antt =====
-- How the coroutine ends: at the end of the stream, at an empty message, at a length that is too
-- large.
use boost_learn.Base.{
  ℕ, ◌+◌, ◌<◌, ◌≡◌, refl, ap, ◌∙◌, List, [], ◌∷◌, ◌++◌, Bool, true, false, some, arith, length, All,
}
use boost_learn.Platform.{Platform, IsShort, exceeds}
use boost_learn.AsyncServer.MsgNode.{RecvNode, recv_node, clear}
use boost_learn.AsyncServer.MsgNode.Contents.{fresh_node, clear-IsValid}
use boost_learn.AsyncServer.Session.Decode.{Message}
use boost_learn.AsyncServer.Session.Stream.{encode_all, encode_head}
use boost_learn.CoroutineService.Socket.{Socket}
use boost_learn.CoroutineService.CSession.{
  CSession, Effect, clear_server, close_socket, Outcome, returned, after, make_recv, co_await,
  round, start, closed, read_body,
}
use boost_learn.CoroutineService.CSession.Round.{IsOpen, headed, round_head}
use boost_learn.CoroutineService.CSession.Receive.{Fits, views, posts, start_messages, start-round}

-- The call returns, has posted the messages in order, and then does `es` and no more.
abbrev pub Delivers : Outcome → List Message → List Effect → Bool → Type 0
Delivers o ms es b =
    (s' : CSession) × (rs : List RecvNode) × (o ≡ returned s' (posts rs ++ es))
    × (views rs ≡ ms)
    × (s'.b_close ≡ b)

module _ (sock : Socket) (p : Platform) where
  ends :
      (s : CSession) (st : sock.State) (ms : List Message) (bs : List ℕ)
      (es : CSession → List Effect) (b : Bool)
      → IsOpen s
      → All Fits ms
      → sock.bytes st ≡ encode_all ms ++ bs
      → ((t : CSession) (at : sock.State)
          → IsOpen t
          → t.uuid ≡ s.uuid
          → sock.bytes at ≡ bs
          → (t' : CSession) × (round sock p (start sock p 0) t at ≡ returned t' (es s))
            × (t'.b_close ≡ b))
      → Delivers (start sock p (1 + length ms) s st) ms (es s) b
  ends s st ms bs es b o f e last =
      let (t, at, rs, o', u, left, same, run) = start_messages sock p 1 s st ms bs o f e in
      let (t', end, closing) = last t at o' u left in
      (t', rs, run ∙ ap (after (posts rs)) (start-round sock p 0 t at o' ∙ end), same, closing)

  round_short :
      (s : CSession) (st : sock.State)
      → IsOpen s
      → length (sock.bytes st) < 4
      → (t : CSession) × (round sock p (start sock p 0) s st
          ≡ returned t (close_socket ∷ clear_server s.uuid ∷ []))
        × (t.b_close ≡ true)
  unfolding round co_await
  round_short s st o few =
      let threw =
        sock.async_read_short st (clear s.recv_head_node).max_len
          (omega (arith, few, o, clear-IsValid o.head_valid)) in
      let cleared = record s { recv_head_node = clear s.recv_head_node } in
      (closed cleared, rw threw, refl)

  -- When the peer sends messages of at most 2048 bytes and none of them empty, and then ends the
  -- connection, at the latest three bytes into another head, the coroutine posts the messages in
  -- order, closes the socket, clears the session from the server, and ends.
  pub start-encode_all :
      (s : CSession) (st : sock.State) (ms : List Message) (tail : List ℕ)
      → IsOpen s
      → All Fits ms
      → length tail < 4
      → sock.bytes st ≡ encode_all ms ++ tail
      → Delivers
          (start sock p (1 + length ms) s st)
          ms
          (close_socket ∷ clear_server s.uuid ∷ [])
          true
  start-encode_all s st ms tail o f few e =
      ends s st ms tail (λ t. close_socket ∷ clear_server t.uuid ∷ []) true o f e
        λ t at o' u left.
          let (t', end, b) = round_short t at o' (omega (arith, few, ap length left)) in
          (t', end ∙ ap (λ x. returned t' (close_socket ∷ clear_server x ∷ [])) u, b)

  round_empty :
      (s : CSession) (st : sock.State) (msg_id : ℕ) (bs : List ℕ)
      → IsOpen s
      → IsShort msg_id
      → sock.bytes st ≡ encode_head msg_id 0 ++ bs
      → (t : CSession) × (round sock p (start sock p 0) s st
          ≡ returned t (clear_server s.uuid ∷ close_socket ∷ []))
        × (t.b_close ≡ true)
  unfolding make_recv read_body co_await recv_node
  round_empty s st msg_id bs o hi e =
      let (st', left, head) =
        round_head sock p (start sock p 0) s st msg_id 0 bs o hi (omega arith) e in
      let (st'', read, left') = sock.async_read_whole st' 0 [] bs left refl in
      let h = headed s msg_id 0 in
      let got = record h {
        recv_msg_node = some (record { node = fresh_node p 0; msg_id = msg_id });
      } in
      (closed got, head ∙ rw read, refl)

  -- A message without a body is taken for the end of the connection: the coroutine posts what came
  -- before it, clears the session, closes the socket, and ends. Neither the message nor anything
  -- behind it is posted.
  pub start_empty_body :
      (s : CSession) (st : sock.State) (ms : List Message) (msg_id : ℕ) (bs : List ℕ)
      → IsOpen s
      → All Fits ms
      → IsShort msg_id
      → sock.bytes st ≡ encode_all ms ++ (encode_head msg_id 0 ++ bs)
      → Delivers
          (start sock p (1 + length ms) s st)
          ms
          (clear_server s.uuid ∷ close_socket ∷ [])
          true
  start_empty_body s st ms msg_id bs o f hi e =
      ends s st ms (encode_head msg_id 0 ++ bs) (λ t. clear_server t.uuid ∷ close_socket ∷ []) true
        o f e
        λ t at o' u left.
          let (t', end, b) = round_empty t at msg_id bs o' hi left in
          (t', end ∙ ap (λ x. returned t' (clear_server x ∷ close_socket ∷ [])) u, b)

  round_long :
      (s : CSession) (st : sock.State) (msg_id msg_len : ℕ) (bs : List ℕ)
      → IsOpen s
      → IsShort msg_id
      → 2048 < msg_len
      → msg_len < 32768
      → sock.bytes st ≡ encode_head msg_id msg_len ++ bs
      → (t : CSession) × (round sock p (start sock p 0) s st
          ≡ returned t (clear_server s.uuid ∷ []))
        × (t.b_close ≡ false)
  round_long s st msg_id msg_len bs o hi long short e =
      let (st', left, head) =
        round_head sock p (start sock p 0) s st msg_id msg_len bs o hi (omega arith) e in
      let over : exceeds msg_len 2048 ≡ true = ground arith in
      (headed s msg_id msg_len, head ∙ rw over, o.not_closed)

  -- A head whose length is above 2048 ends the coroutine behind the messages before it: the session
  -- is cleared from the server, but the socket is not closed.
  pub start_too_long :
      (s : CSession) (st : sock.State) (ms : List Message) (msg_id msg_len : ℕ) (bs : List ℕ)
      → IsOpen s
      → All Fits ms
      → IsShort msg_id
      → 2048 < msg_len
      → msg_len < 32768
      → sock.bytes st ≡ encode_all ms ++ (encode_head msg_id msg_len ++ bs)
      → Delivers (start sock p (1 + length ms) s st) ms (clear_server s.uuid ∷ []) false
  start_too_long s st ms msg_id msg_len bs o f hi long short e =
      ends s st ms (encode_head msg_id msg_len ++ bs) (λ t. clear_server t.uuid ∷ []) false o f e
        λ t at o' u left.
          let (t', end, b) = round_long t at msg_id msg_len bs o' hi long short left in
          (t', end ∙ ap (λ x. returned t' (clear_server x ∷ [])) u, b)
