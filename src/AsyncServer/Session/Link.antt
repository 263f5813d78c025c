-- ===== src/AsyncServer/Session/Link.antt =====
-- The send queue and the socket. At most one write is in flight; the socket completes it or
-- fails it, and calls `handle_write`.
use boost_learn.Base.{ℕ, List, [], ◌∷◌, ◌++◌, Bool, true, false, Option, none, some}
use boost_learn.Platform.{Platform}
use boost_learn.AsyncServer.MsgNode.{SendNode, ◌>>=◌}
use boost_learn.AsyncServer.Session.{Session}
use boost_learn.AsyncServer.Session.Sending.{Writing, async_write, clear_server, send, handle_write}

-- `written`: the nodes that the socket has taken whole, oldest first. `lost`: a write has failed.
pub record Link : Type 0 where
  pub session : Session
  pub in_flight : Option SendNode
  pub written : List SendNode
  pub lost : Bool

pub data Op : Type 0 where
  sends : List ℕ → ℕ → ℕ → Op
  completes : Op
  fails : Op

-- The write that a call starts, if any. Clearing the session from the server starts none.
abbrev pub started : Option SendNode → List Writing → Option SendNode
started w [] = w
started w (async_write n ∷ es) = some n
started w (clear_server u ∷ es) = started w es

abbrev pub settle : Link → Option SendNode → Option (Session × List Writing) → Option Link
settle l w none = none
settle l w (some (s, es)) = some (record l { session = s; in_flight = started w es })

-- The socket ends the write that is in flight, and calls back; without one nothing happens.
abbrev pub end_write : Link → Bool → Option SendNode → Option Link
end_write l ec none = some l
end_write l true (some n) = settle (record l { lost = true }) none (handle_write l.session true)
end_write l false (some n) =
    settle (record l { written = l.written ++ n ∷ [] }) none (handle_write l.session false)

module _ (p : Platform) where
  unfoldable pub act : Link → Op → Option Link
  act l (sends msg len msg_id) = settle l l.in_flight (send p l.session msg len msg_id)
  act l completes = end_write l false l.in_flight
  act l fails = end_write l true l.in_flight

  unfoldable pub run : Link → List Op → Option Link
  unfolding act
  run l [] = some l
  run l (op ∷ ops) = do l' ← act l op; run l' ops
