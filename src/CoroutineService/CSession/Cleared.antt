-- ===== src/CoroutineService/CSession/Cleared.antt =====
-- The coroutine ends, and has then cleared its session.
use boost_learn.Base.{
  ℕ, zero, suc, ◌≡◌, refl, sym, ap, List, [], ◌∷◌, Bool-cases, false, Option, none, some, ◌==◌, inl,
  inr, arith, ltb, ltb→lt, ltb→le, ◌⊎◌, ◌<◌, ◌≤◌, ◌+◌, take, drop, length-take, length-drop,
  take-append-drop, length, set, subst,
}
use boost_learn.Platform.{Platform, exceeds}
use boost_learn.AsyncServer.MsgNode.{RecvNode, recv_node, clear}
use boost_learn.AsyncServer.Session.{read_short}
use boost_learn.CoroutineService.Socket.{Socket}
use boost_learn.CoroutineService.Const.{max_length}
use boost_learn.CoroutineService.CSession.{
  CSession, Effect, post_msg_to_que, clear_server, close_socket, Outcome, returned, reading, fault,
  after, start, round, co_await, parse_head, make_recv, read_body, fill,
}

-- The effects clear this session, if any.
abbrev pub ClearsOnly : ℕ → List Effect → Type 0
ClearsOnly u [] = Unit
ClearsOnly u (post_msg_to_que r ∷ es) = ClearsOnly u es
ClearsOnly u (close_socket ∷ es) = ClearsOnly u es
ClearsOnly u (clear_server v ∷ es) = (v ≡ u) × ClearsOnly u es

-- They do clear it.
abbrev pub Clears : ℕ → List Effect → Type 0
Clears u [] = ⊥
Clears u (post_msg_to_que r ∷ es) = Clears u es
Clears u (close_socket ∷ es) = Clears u es
Clears u (clear_server v ∷ es) = (v ≡ u) × ClearsOnly u es

-- The call has returned and cleared the session, or faulted.
abbrev pub Ends : ℕ → Outcome → Type 0
Ends u (returned s es) = Clears u es
Ends u (reading s es) = ⊥
Ends u (fault es) = Unit

after_post-Ends :
    (u : ℕ) (r : RecvNode) (o : Outcome) → Ends u o → Ends u (after (post_msg_to_que r ∷ []) o)
after_post-Ends u r (returned s es) h = h
after_post-Ends u r (reading s es) h = h
after_post-Ends u r (fault es) h = h

-- The node of the head is the four bytes that the constructor makes it.
abbrev pub IsRunning : CSession → Type 0
IsRunning s = (s.b_close ≡ false) × (s.recv_head_node.max_len ≡ 4)

module _ (sock : Socket) where
  -- A read throws, or takes as many bytes as it asks for.
  read-cases :
      (st : sock.State) (n : ℕ)
      → (sock.async_read st n ≡ none)
        ⊎ ((bs : List ℕ) × (st' : sock.State) × (sock.async_read st n ≡ some (bs, st'))
            × (length (sock.bytes st) ≡ n + length (sock.bytes st')))
  read-cases st n = elim (Bool-cases (ltb (length (sock.bytes st)) n)) [
    | inl few ↦ inl (sock.async_read_short st n (ltb→lt (length (sock.bytes st)) n few))
    | inr enough ↦
        let xs = sock.bytes st in
        let has : n ≤ length xs = ltb→le (length xs) n enough in
        let (st', got, left) =
          sock.async_read_whole st n (take n xs) (drop n xs) (sym (take-append-drop n xs))
            (omega (arith, length-take n xs)) in
        inr (take n xs, st', got, omega (arith, ap length left, length-drop n xs))
  ]

  co_await-Ends :
      (s : CSession) (st : sock.State) (n : ℕ) (go : List ℕ → sock.State → Outcome)
      → ((bs : List ℕ) (st' : sock.State)
          → length (sock.bytes st) ≡ n + length (sock.bytes st')
          → Ends s.uuid (go bs st'))
      → Ends s.uuid (co_await sock s (sock.async_read st n) go)
  unfolding co_await
  co_await-Ends s st n go h = elim (read-cases st n) [
    | inl threw ↦ rw threw (refl, tt)
    | inr (bs, st', got, left) ↦ elim (Bool-cases (length bs == 0)) [
      | inl empty ↦ rw (got, empty) (refl, tt)
      | inr more ↦ rw (got, more) (h bs st' left)
    ]
  ]

  module _ (rest : CSession → sock.State → Outcome) (fuel : ℕ)
      (later : (s : CSession) (st : sock.State)
        → IsRunning s
        → length (sock.bytes st) < fuel
        → Ends s.uuid (rest s st)) where
    make_recv-Ends :
        (s : CSession) (msg_len : ℕ) (o : Option RecvNode) (st : sock.State)
        → IsRunning s
        → length (sock.bytes st) < fuel
        → Ends s.uuid (make_recv sock rest s msg_len o st)
    unfolding make_recv read_body
    make_recv-Ends s msg_len none st running few = elim (Bool-cases (msg_len == 65535)) [
      | inl minus_one ↦ rw minus_one tt
      | inr other ↦ rw other (refl, tt)
    ]
    make_recv-Ends s msg_len (some recv) st running few =
        co_await-Ends (record s { recv_msg_node = some recv }) st recv.node.max_len _
          λ bs st' left.
            let full = fill recv.node bs in
            let ended = record full { chars = set full.chars full.max_len 0 } in
            let done = record recv { node = ended } in
            let waiting = record s { recv_msg_node = some done } in
            after_post-Ends s.uuid done (rest waiting st')
              (later waiting st' running (omega (arith, few, left)))

    parse_head-Ends :
        (p : Platform) (s : CSession) (st : sock.State)
        → IsRunning s
        → length (sock.bytes st) < fuel
        → Ends s.uuid (parse_head sock p rest s st)
    unfolding parse_head
    parse_head-Ends p s st running few =
        let msg_id = read_short p s.recv_head_node.chars 0 in
        let msg_len = read_short p s.recv_head_node.chars 2 in
        elim (Bool-cases (exceeds msg_len max_length)) [
          | inl long ↦ rw long (refl, tt)
          | inr fits ↦
              rw fits (make_recv-Ends s msg_len (recv_node p msg_len msg_id) st running few)
        ]

    round-Ends :
        (p : Platform) (s : CSession) (st : sock.State)
        → IsRunning s
        → length (sock.bytes st) < suc fuel
        → Ends s.uuid (round sock p rest s st)
    unfolding round clear
    round-Ends p s st running few =
        let cleared = record s { recv_head_node = clear s.recv_head_node } in
        co_await-Ends cleared st cleared.recv_head_node.max_len _ λ bs st' left.
          parse_head-Ends p (record cleared { recv_head_node = fill cleared.recv_head_node bs }) st'
            running (omega (arith, few, left, running.1))

  start-running :
      (p : Platform) (fuel : ℕ) (s : CSession) (st : sock.State)
      → s.b_close ≡ false
      → start sock p (suc fuel) s st ≡ round sock p (start sock p fuel) s st
  unfolding start
  start-running p fuel s st running = rw running

  -- Each round takes four bytes at least.
  pub start-Ends :
      (p : Platform) (fuel : ℕ) (s : CSession) (st : sock.State)
      → IsRunning s
      → length (sock.bytes st) < fuel
      → Ends s.uuid (start sock p fuel s st)
  start-Ends p zero s st running few = absurd (omega arith)
  start-Ends p (suc fuel) s st running few =
      subst (Ends s.uuid) (sym (start-running p fuel s st running.0))
        (round-Ends (start sock p fuel) fuel (start-Ends p fuel) p s st running few)
