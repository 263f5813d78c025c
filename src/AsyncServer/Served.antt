-- ===== src/AsyncServer/Served.antt =====
-- From the bytes of a read to the bytes of the answers: the session, the logic thread, and the send
-- queue.
use boost_learn.Base.{
  ℕ, suc, ◌<◌, ◌≤◌, ◌≡◌, refl, sym, ap, ◌∙◌, List, [], ◌∷◌, ◌++◌, false, Option, some, arith,
  length, All, ◌==◌, if◌then◌else◌, Bool-cases, inl, inr, map, subst, ap₂,
}
use boost_learn.Platform.{Platform, IsByte}
use boost_learn.Json.{Json}
use boost_learn.WorkQueue.{Logic, asleep, deal_msg, start}
use boost_learn.WorkQueue.Order.{replies_of, AreServed}
use boost_learn.WorkQueue.Awake.{post_each, woken, woken-serves}
use boost_learn.AsyncServer.Const.{msg_hello_world}
use boost_learn.AsyncServer.MsgNode.{RecvNode}
use boost_learn.AsyncServer.MsgNode.Contents.{contents}
use boost_learn.AsyncServer.LogicSystem.{
  LogicNode, Reply, find_callback, dispatch, register_callback, hello_world_callback, call_back,
  post_msg_to_que,
}
use boost_learn.AsyncServer.Session.{
  Session, Effect, async_read_some, clear_server, returned, handle_read, deliver,
}
use boost_learn.AsyncServer.Session.Decode.{Message}
use boost_learn.AsyncServer.Session.Stream.{Fits, encode, encode_all}
use boost_learn.AsyncServer.Session.View.{IsReadingHead, view_message}
use boost_learn.AsyncServer.Session.Receive.{IsRead, handle_read-encode_all}
use boost_learn.AsyncServer.Session.Posted.{posted_nodes, returned-posted}
use boost_learn.AsyncServer.Session.Sending.{send, send_string}
use boost_learn.AsyncServer.Session.Link.{Link, Op, run}
use boost_learn.AsyncServer.Session.Outbox.{live, outbox, is_live, OpFits}
use boost_learn.AsyncServer.Session.Order.{frames, history, history-run}

-- LogicNode(shared_from_this(), _recv_msg_node)
abbrev pub node_of : ℕ → RecvNode → LogicNode
node_of uuid r = record { recvnode = r; session = uuid }

-- What the calls of a session do to the logic system.
unfoldable pub post_all : Logic LogicNode Reply → ℕ → List Effect → Logic LogicNode Reply
unfolding post_msg_to_que
post_all l uuid [] = l
post_all l uuid (boost_learn.AsyncServer.Session.post_msg_to_que r ∷ es) =
    post_all (post_msg_to_que l (node_of uuid r)) uuid es
post_all l uuid (async_read_some ∷ es) = post_all l uuid es
post_all l uuid (clear_server u ∷ es) = post_all l uuid es

post_all-each :
    (l : Logic LogicNode Reply) (uuid : ℕ) (es : List Effect)
    → post_all l uuid es ≡ post_each l (map (node_of uuid) (posted_nodes es))
unfolding post_all post_msg_to_que post_each
post_all-each l uuid [] = refl
post_all-each l uuid (boost_learn.AsyncServer.Session.post_msg_to_que r ∷ es) =
    post_all-each (post_msg_to_que l (node_of uuid r)) uuid es
post_all-each l uuid (async_read_some ∷ es) = post_all-each l uuid es
post_all-each l uuid (clear_server u ∷ es) = post_all-each l uuid es

-- What is seen of a node: its session, and its message.
abbrev view_node : LogicNode → ℕ × Message
view_node n = (n.session, view_message n.recvnode)

abbrev pub sent_by : ℕ → List Message → List (ℕ × Message)
sent_by uuid ms = map (λ m. (uuid, m)) ms

node-views :
    (uuid : ℕ) (rs : List RecvNode)
    → map view_node (map (node_of uuid) rs) ≡ sent_by uuid (map view_message rs)
node-views uuid [] = refl
node-views uuid (r ∷ rs) = ap (λ t. (uuid, view_message r) ∷ t) (node-views uuid rs)

length-nodes : (uuid : ℕ) (rs : List RecvNode) → length (map (node_of uuid) rs) ≡ length rs
length-nodes uuid [] = refl
length-nodes uuid (r ∷ rs) = ap suc (length-nodes uuid rs)

-- Send(std::string, short), which a callback calls, is the other Send with the length of its text.
send_string-send :
    (p : Platform) (s : Session) (msg : List ℕ) (msg_id : ℕ)
    → send_string p s msg msg_id ≡ send p s msg (length msg) msg_id
unfolding send_string send
send_string-send p s msg msg_id = refl

-- The bytes of an answer.
abbrev pub frame_of : Reply → List ℕ
frame_of r = encode (record { msg_id = r.msgid; body = r.msg })

module _ (json : Json) where
  -- What a message is answered with; `none` when the callback throws.
  abbrev pub by_message : ℕ × Message → Option (List Reply)
  by_message (uuid, m) =
      if msg_hello_world == m.msg_id
      then hello_world_callback json uuid m.msg_id m.body
      else some []

  dispatch-view : (node : LogicNode) → dispatch json node ≡ by_message (view_node node)
  unfolding dispatch register_callback find_callback call_back
  dispatch-view node = elim (Bool-cases (msg_hello_world == node.recvnode.msg_id)) [
    | inl same ↦ rw same refl
    | inr other ↦ rw other refl
  ]

  -- No callback throws.
  abbrev pub AreAnswered : ℕ → List Message → Type 0
  AreAnswered uuid ms = AreServed by_message (sent_by uuid ms)

  -- What the messages are answered with, in order.
  abbrev pub all_replies : ℕ → List Message → List Reply
  all_replies uuid ms = replies_of by_message (sent_by uuid ms)

  -- The read has ended with `effects`; the worker, which wakes behind it, has answered `answers` and
  -- waits; and the calls `ops` on the session do not fault, and leave the frames of the answers, on their
  -- way or out.
  pub record IsServed (p : Platform) (s : Session) (chunk : List ℕ) (rounds : ℕ)
      (answers : List Reply) (ops : List Op) : Type 0 where
    pub ended : Session
    pub effects : List Effect
    pub returns :
        handle_read p rounds (deliver s chunk) false (length chunk) ≡ returned ended effects
    pub served : Logic LogicNode Reply
    pub serves :
        deal_msg
          (dispatch json)
          (suc (length (posted_nodes effects)))
          (woken (post_all start s.uuid effects))
        ≡ served
    pub waits : served.worker ≡ asleep
    pub none_left : served.msg_que ≡ []
    pub answered : served.replies ≡ answers
    pub link : Link
    pub runs : run p (live ended [] []) ops ≡ some link
    pub goes_out : history (outbox link) ≡ map frame_of answers

  length-frames : (rs : List Reply) → length (map frame_of rs) ≡ length rs
  length-frames [] = refl
  length-frames (r ∷ rs) = ap suc (length-frames rs)

  -- A session that waits for a head, of which no byte has come, is given whole messages that fit, with
  -- fewer than four bytes behind them, in one read, and no callback throws on them. The read returns; the
  -- worker of a new logic system, when it wakes behind it, answers to each message, in order, what the
  -- callback of its id makes of its whole body, and nothing for an id without a callback, and then waits.
  -- When these answers, at most 1001 and each fitting a node, are sent in this order through the session,
  -- whose queue is empty, and writes end or fail in between, then no call faults, and the frames that have
  -- gone out whole and those that wait are, one behind the other, the frames of the answers.
  pub handle_read-IsServed :
      (p : Platform) (s : Session) (chunk : List ℕ) (ms : List Message) (tail : List ℕ)
      (ops : List Op)
      → IsReadingHead s
      → contents s.recv_head_node ≡ []
      → IsRead chunk
      → All IsByte chunk
      → chunk ≡ encode_all ms ++ tail
      → All Fits ms
      → length tail < 4
      → AreAnswered s.uuid ms
      → All OpFits ops
      → frames ops ≡ map frame_of (all_replies s.uuid ms)
      → length (all_replies s.uuid ms) ≤ 1001
      → IsServed p s chunk (suc (length ms)) (all_replies s.uuid ms) ops
  unfolding start
  handle_read-IsServed p s chunk ms tail ops v empty i bytes e fits few safe ok sent room =
      let kept : contents s.recv_head_node ++ chunk ≡ chunk = ap (λ t. t ++ chunk) empty in
      let (s', es, ret, same) = returned-posted _ ms tail (
        handle_read-encode_all p s chunk ms tail v i (subst (All IsByte) (sym kept) bytes)
          (kept ∙ e) fits few) in
      let nodes = map (node_of s.uuid) (posted_nodes es) in
      let answers = all_replies s.uuid ms in
      let (l, ran, went) =
        history-run p (live s' [] []) ops (is_live s' [] [] refl) ok
          (omega (arith, ap length sent, length-frames answers, room)) in
      record {
        ended = s';
        effects = es;
        returns = ret;
        served = record (start {Node = LogicNode} {Reply = Reply}) {
          worker = asleep;
          handled = nodes;
          replies = answers;
        };
        serves =
            ap {A = ℕ × Logic LogicNode Reply} (λ t. deal_msg (dispatch json) (suc t.0) (woken t.1))
              (ap₂ (λ a b. (a, b)) (sym (length-nodes s.uuid (posted_nodes es)))
                (post_all-each start s.uuid es))
            ∙ woken-serves (dispatch json) view_node by_message dispatch-view nodes
                (sent_by s.uuid ms) (node-views s.uuid (posted_nodes es) ∙ ap (sent_by s.uuid) same)
                safe;
        waits = refl;
        none_left = refl;
        answered = refl;
        link = l;
        runs = ran;
        goes_out = went ∙ sent;
      }
