-- ===== src/CoroutineService/Served.antt =====
-- From the bytes of a peer to the answers of the logic thread.
use boost_learn.Base.{
  ℕ, suc, ◌+◌, ◌<◌, ◌≡◌, refl, ap, ◌∙◌, List, [], ◌∷◌, ◌++◌, Option, some, length, All, ◌==◌,
  if◌then◌else◌, Bool-cases, inl, inr, map,
}
use boost_learn.Platform.{Platform}
use boost_learn.Json.{Json}
use boost_learn.WorkQueue.{Logic, asleep}
use boost_learn.WorkQueue.Order.{replies_of, AreServed}
use boost_learn.WorkQueue.Awake.{post_each, woken, woken-serves}
use boost_learn.AsyncServer.MsgNode.{RecvNode}
use boost_learn.AsyncServer.LogicSystem.{LogicNode, Reply, find_callback}
use boost_learn.AsyncServer.Session.Decode.{Message}
use boost_learn.AsyncServer.Session.Stream.{encode_all}
use boost_learn.CoroutineService.Const.{msg_helloworld}
use boost_learn.CoroutineService.Socket.{Socket}
use boost_learn.CoroutineService.CSession.{
  CSession, Effect, post_msg_to_que, clear_server, close_socket, returned,
}
use boost_learn.CoroutineService.CSession as CSession
use boost_learn.CoroutineService.CSession.Round.{IsOpen, view}
use boost_learn.CoroutineService.CSession.Receive.{Fits, views, posts}
use boost_learn.CoroutineService.CSession.Ends.{start-encode_all}
use boost_learn.CoroutineService.LogicSystem as LogicSystem
use boost_learn.CoroutineService.LogicSystem.{
  dispatch, register_callback, hello_world_callback, call_back,
}

-- LogicNode(shared_from_this(), _recv_msg_node)
abbrev pub node_of : ℕ → RecvNode → LogicNode
node_of uuid r = record { recvnode = r; session = uuid }

-- The nodes that the calls of a session post.
abbrev pub posted_nodes : ℕ → List Effect → List LogicNode
posted_nodes uuid [] = []
posted_nodes uuid (post_msg_to_que r ∷ es) = node_of uuid r ∷ posted_nodes uuid es
posted_nodes uuid (clear_server u ∷ es) = posted_nodes uuid es
posted_nodes uuid (close_socket ∷ es) = posted_nodes uuid es

-- What the calls of a session do to the logic system.
unfoldable pub post_all : Logic LogicNode Reply → ℕ → List Effect → Logic LogicNode Reply
unfolding LogicSystem.post_msg_to_que
post_all l uuid [] = l
post_all l uuid (post_msg_to_que r ∷ es) =
    post_all (LogicSystem.post_msg_to_que l (node_of uuid r)) uuid es
post_all l uuid (clear_server u ∷ es) = post_all l uuid es
post_all l uuid (close_socket ∷ es) = post_all l uuid es

post_all-each :
    (l : Logic LogicNode Reply) (uuid : ℕ) (es : List Effect)
    → post_all l uuid es ≡ post_each l (posted_nodes uuid es)
unfolding post_all LogicSystem.post_msg_to_que post_each
post_all-each l uuid [] = refl
post_all-each l uuid (post_msg_to_que r ∷ es) =
    post_all-each (LogicSystem.post_msg_to_que l (node_of uuid r)) uuid es
post_all-each l uuid (clear_server u ∷ es) = post_all-each l uuid es
post_all-each l uuid (close_socket ∷ es) = post_all-each l uuid es

-- What is seen of a node: its session, and its message.
abbrev view_node : LogicNode → ℕ × Message
view_node n = (n.session, view n.recvnode)

abbrev pub sent_by : ℕ → List Message → List (ℕ × Message)
sent_by uuid ms = map (λ m. (uuid, m)) ms

posted-views :
    (uuid : ℕ) (rs : List RecvNode) (u : ℕ)
    → map view_node (posted_nodes uuid (posts rs ++ close_socket ∷ clear_server u ∷ []))
      ≡ sent_by uuid (views rs)
posted-views uuid [] u = refl
posted-views uuid (r ∷ rs) u = ap (λ t. (uuid, view r) ∷ t) (posted-views uuid rs u)

module _ (json : Json) where
  -- What a message is answered with; `none` when the callback throws.
  abbrev pub by_message : ℕ × Message → Option (List Reply)
  by_message (uuid, m) =
      if msg_helloworld == m.msg_id then hello_world_callback json uuid m.msg_id m.body else some []

  dispatch-view : (node : LogicNode) → dispatch json node ≡ by_message (view_node node)
  unfolding dispatch register_callback find_callback call_back
  dispatch-view node = elim (Bool-cases (msg_helloworld == node.recvnode.msg_id)) [
    | inl same ↦ rw same refl
    | inr other ↦ rw other refl
  ]

  -- No callback throws.
  abbrev pub AreAnswered : ℕ → List Message → Type 0
  AreAnswered uuid ms = AreServed by_message (sent_by uuid ms)

  -- What the messages are answered with, in order.
  abbrev pub all_replies : ℕ → List Message → List Reply
  all_replies uuid ms = replies_of by_message (sent_by uuid ms)

  -- The coroutine has ended with `effects`, and the worker, which wakes behind it, has answered `answers`
  -- and waits.
  pub record IsServed (sock : Socket) (p : Platform) (s : CSession) (st : sock.State) (rounds : ℕ)
      (answers : List Reply) : Type 0 where
    pub ended : CSession
    pub effects : List Effect
    pub returns : CSession.start sock p rounds s st ≡ returned ended effects
    pub served : Logic LogicNode Reply
    pub serves :
        LogicSystem.deal_msg json
          (suc (length (posted_nodes s.uuid effects)))
          (woken (post_all LogicSystem.start s.uuid effects))
        ≡ served
    pub waits : served.worker ≡ asleep
    pub none_left : served.msg_que ≡ []
    pub answered : served.replies ≡ answers

  -- The peer of an open session sends messages of at most 2048 bytes, none of them empty, and ends the
  -- connection. The coroutine ends; and when the worker of a new logic system wakes behind it, and no
  -- callback throws, it answers to each message, in the order in which they were sent, what the callback
  -- of its id makes of its whole body, and nothing for an id without a callback, and then waits. One unit
  -- of fuel for each node that was posted, and one more, are enough.
  pub start-IsServed :
      (sock : Socket) (p : Platform) (s : CSession) (st : sock.State) (ms : List Message)
      (tail : List ℕ)
      → IsOpen s
      → All Fits ms
      → length tail < 4
      → sock.bytes st ≡ encode_all ms ++ tail
      → AreAnswered s.uuid ms
      → IsServed sock p s st (1 + length ms) (all_replies s.uuid ms)
  unfolding LogicSystem.deal_msg LogicSystem.start
  start-IsServed sock p s st ms tail o fits few e safe =
      let (s', rs, run, same, shut) = start-encode_all sock p s st ms tail o fits few e in
      let es = posts rs ++ close_socket ∷ clear_server s.uuid ∷ [] in
      let nodes = posted_nodes s.uuid es in
      record {
        ended = s';
        effects = es;
        returns = run;
        served = record LogicSystem.start {
          worker = asleep;
          handled = nodes;
          replies = all_replies s.uuid ms;
        };
        serves =
            ap {A = Logic LogicNode Reply}
              (λ l. LogicSystem.deal_msg json (suc (length nodes)) (woken l))
              (post_all-each LogicSystem.start s.uuid es)
            ∙ woken-serves (dispatch json) view_node by_message dispatch-view nodes
                (sent_by s.uuid ms) (posted-views s.uuid rs s.uuid ∙ ap (sent_by s.uuid) same) safe;
        waits = refl;
        none_left = refl;
        answered = refl;
      }
