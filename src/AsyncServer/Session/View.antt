-- ===== src/AsyncServer/Session/View.antt =====
-- A session as the wire format sees it: the message or head that is under way, and the effects of
-- a call as events.
use boost_learn.Base.{
  ◌≤◌, ◌<◌, ◌≡◌, refl, List, [], ◌∷◌, Bool, true, false, Option, none, some, length,
}
use boost_learn.AsyncServer.MsgNode.{MsgNode, RecvNode}
use boost_learn.AsyncServer.MsgNode.Contents.{IsValid, contents}
use boost_learn.AsyncServer.Session.{
  Session, Effect, async_read_some, post_msg_to_que, clear_server, Outcome, returned, spinning,
  fault, after,
}
use boost_learn.AsyncServer.Session.Decode.{
  Message, Event, message, ready, closed, Pending, head, body, shut, broken, busy, Reading,
  with_events,
}

-- What a callback gets of a posted node: `std::string(_data, _cur_len)` and the id.
abbrev pub view_message : RecvNode → Message
view_message r = record { msg_id = r.msg_id; body = contents r.node }

abbrev pub view_effect : Effect → Event
view_effect async_read_some = ready
view_effect (post_msg_to_que r) = message (view_message r)
view_effect (clear_server uuid) = closed uuid

abbrev pub view_effects : List Effect → List Event
view_effects [] = []
view_effects (e ∷ es) = view_effect e ∷ view_effects es

abbrev pub body_of : Option RecvNode → Pending
body_of none = broken
body_of (some r) = body r.msg_id r.node.max_len (contents r.node)

abbrev pub pending_by : Bool → Option RecvNode → MsgNode → Pending
pending_by true msg h = body_of msg
pending_by false msg h = head (contents h)

abbrev pub pending_of : Session → Pending
pending_of s = pending_by s.b_head_parse s.recv_msg_node s.recv_head_node

abbrev pub pending_after : Session → List Effect → Pending
pending_after s [] = pending_of s
pending_after s (clear_server uuid ∷ es) = shut
pending_after s (async_read_some ∷ es) = pending_after s es
pending_after s (post_msg_to_que r ∷ es) = pending_after s es

abbrev pub observe : Outcome → Reading
observe (returned s es) = record { events = view_effects es; pending = pending_after s es }
observe (spinning s es) = record { events = view_effects es; pending = busy }
observe (fault es) = record { events = view_effects es; pending = broken }

-- A message that is posted first is reported first.
pub observe-after :
    (r : RecvNode) (o : Outcome)
    → observe (after (post_msg_to_que r ∷ []) o)
      ≡ with_events (message (view_message r) ∷ []) (observe o)
observe-after r (returned s es) = refl
observe-after r (spinning s es) = refl
observe-after r (fault es) = refl

-- The session reads a head, and the head's node is the four bytes that the constructor makes it.
pub record IsReadingHead (s : Session) : Type 0 where
  pub at_head : s.b_head_parse ≡ false
  pub head_valid : IsValid s.recv_head_node
  pub head_size : s.recv_head_node.max_len ≡ 4
  pub head_open : s.recv_head_node.cur_len < 4
  pub array : 2048 ≤ length s.buffer
