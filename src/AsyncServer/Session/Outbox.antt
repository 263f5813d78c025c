-- ===== src/AsyncServer/Session/Outbox.antt =====
-- What a client of the send queue sees: frames that wait and frames that are out, and the links on
-- which the queue is in order.
use boost_learn.Base.{
  ℕ, ◌≤◌, ◌≡◌, List, [], ◌∷◌, ◌++◌, Bool, true, false, none, ltb, map, if◌then◌else◌, length, take,
}
use boost_learn.Platform.{IsShort}
use boost_learn.AsyncServer.MsgNode.{SendNode}
use boost_learn.AsyncServer.MsgNode.Encoding.{wire}
use boost_learn.AsyncServer.Session.{Session}
use boost_learn.AsyncServer.Session.Stream.{encode}
use boost_learn.AsyncServer.Session.Sending.{front}
use boost_learn.AsyncServer.Session.Link.{Link, Op, sends, completes, fails}

-- The frames that wait, those that are out, and whether the connection is lost.
pub record Outbox : Type 0 where
  pub waiting : List (List ℕ)
  pub done : List (List ℕ)
  pub lost : Bool

abbrev pub complete : Outbox → List (List ℕ) → Outbox
complete b [] = b
complete b (f ∷ fs) = record b { waiting = fs; done = b.done ++ f ∷ [] }

abbrev pub lose : Outbox → List (List ℕ) → Outbox
lose b [] = b
lose b (f ∷ fs) = record b { lost = true }

-- At most 1001 frames wait; a message that comes then is dropped.
unfoldable pub outbox_step : Outbox → Op → Outbox
outbox_step b (sends msg len msg_id) = if ltb 1000 (length b.waiting) then b else record b {
  waiting = b.waiting ++ encode (record { msg_id = msg_id; body = take len msg }) ∷ [];
}
outbox_step b completes = if b.lost then b else complete b b.waiting
outbox_step b fails = if b.lost then b else lose b b.waiting

unfoldable pub outbox_run : Outbox → List Op → Outbox
unfolding outbox_step
outbox_run b [] = b
outbox_run b (op ∷ ops) = outbox_run (outbox_step b op) ops

abbrev pub outbox : Link → Outbox
outbox l = record {
  waiting = map wire l.session.send_queue;
  done = map wire l.written;
  lost = l.lost;
}

-- A link on which the oldest node of the queue is in flight.
abbrev pub live : Session → List SendNode → List SendNode → Link
live s w q = record {
  session = record s { send_queue = q };
  in_flight = front q;
  written = w;
  lost = false;
}

-- A link after a write has failed: its node is still the oldest, and nothing is in flight.
abbrev pub dead : Session → List SendNode → SendNode → List SendNode → Link
dead s w x q = record {
  session = record s { send_queue = x ∷ q };
  in_flight = none;
  written = w;
  lost = true;
}

pub data InOrder (l : Link) : Type 0 where
  is_live : (s : Session) (w q : List SendNode) → l ≡ live s w q → InOrder l
  is_dead :
      (s : Session) (w : List SendNode) (x : SendNode) (q : List SendNode)
      → l ≡ dead s w x q
      → InOrder l

-- A message that a node can be made of, and the bytes that its sender hands over.
abbrev pub OpFits : Op → Type 0
OpFits (sends msg len msg_id) = IsShort msg_id × (len ≤ 32763) × (len ≤ length msg)
OpFits completes = Unit {0}
OpFits fails = Unit {0}
