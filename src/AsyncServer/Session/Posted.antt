-- ===== src/AsyncServer/Session/Posted.antt =====
-- The nodes that a call posts.
use boost_learn.Base.{ℕ, ◌≡◌, refl, ap, ◌∙◌, List, [], ◌∷◌, ◌++◌, map}
use boost_learn.AsyncServer.MsgNode.{RecvNode}
use boost_learn.AsyncServer.Session.{
  Effect, async_read_some, post_msg_to_que, clear_server, Outcome, returned, spinning, fault,
  Session,
}
use boost_learn.AsyncServer.Session.Decode.{
  Message, Event, message, ready, closed, head, waiting, with_events,
}
use boost_learn.AsyncServer.Session.Stream.{messages}
use boost_learn.AsyncServer.Session.View.{observe, view_message, view_effects}

-- The messages among the events of a call, in order.
abbrev pub posted_events : List Event → List Message
posted_events [] = []
posted_events (message m ∷ es) = m ∷ posted_events es
posted_events (ready ∷ es) = posted_events es
posted_events (closed uuid ∷ es) = posted_events es

pub posted-messages : (ms : List Message) → posted_events (messages ms ++ ready ∷ []) ≡ ms
unfolding messages
posted-messages [] = refl
posted-messages (m ∷ ms) = ap (λ t. m ∷ t) (posted-messages ms)

abbrev pub posted_nodes : List Effect → List RecvNode
posted_nodes [] = []
posted_nodes (async_read_some ∷ es) = posted_nodes es
posted_nodes (post_msg_to_que r ∷ es) = r ∷ posted_nodes es
posted_nodes (clear_server uuid ∷ es) = posted_nodes es

posted-view :
    (es : List Effect) → map view_message (posted_nodes es) ≡ posted_events (view_effects es)
posted-view [] = refl
posted-view (async_read_some ∷ es) = posted-view es
posted-view (post_msg_to_que r ∷ es) = ap (λ t. view_message r ∷ t) (posted-view es)
posted-view (clear_server uuid ∷ es) = posted-view es

-- A call that is seen to report messages and wait has returned, and has posted their nodes.
pub returned-posted :
    (o : Outcome) (ms : List Message) (tail : List ℕ)
    → observe o ≡ with_events (messages ms) (waiting (head tail))
    → (s : Session) × (es : List Effect) × (o ≡ returned s es)
      × (map view_message (posted_nodes es) ≡ ms)
returned-posted (returned s es) ms tail e =
    (s, es, refl, posted-view es ∙ (ap (λ r. posted_events r.events) e ∙ posted-messages ms))
returned-posted (spinning s es) ms tail e = let pending = ap (λ r. r.pending) e in cc
returned-posted (fault es) ms tail e = let pending = ap (λ r. r.pending) e in cc
