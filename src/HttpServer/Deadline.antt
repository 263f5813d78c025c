-- ===== src/HttpServer/Deadline.antt =====
-- No connection waits for its client without its timer.
use boost_learn.Base.{◌≡◌, refl, ◌⊎◌, inl, inr, Bool, true, false}
use boost_learn.HttpServer.Connect.{
  Connect, Socket, shut, closed, for_request, for_write, for_nothing, start, request_read,
  response_written, deadline_over, shutdown_send,
}

-- Which callbacks can come: those that are waited for, and the timer's, in time or cancelled.
pub data Step (c : Connect) : Connect → Type 0 where
  reads : (ec : Bool) → c.waiting ≡ for_request → Step c (request_read c ec)
  writes : (ec : Bool) → c.waiting ≡ for_write → Step c (response_written c ec)
  expires : c.deadline ≡ true → Step c (deadline_over c false)
  cancelled : c.deadline ≡ false → Step c (deadline_over c true)

pub data Reach : Connect → Type 0 where
  begin : Reach start
  next : {c d : Connect} → Reach c → Step c d → Reach d

-- `watched`: the timer is armed, or the socket is closed, or no read and no write is waited for.
-- `ended`: behind the shutdown nothing is waited for, and the timer is not armed.
pub record IsGuarded (c : Connect) : Type 0 where
  pub watched : (c.deadline ≡ true) ⊎ ((c.socket ≡ closed) ⊎ (c.waiting ≡ for_nothing))
  pub ended : c.socket ≡ shut → (c.deadline ≡ false) × (c.waiting ≡ for_nothing)

pub start-IsGuarded : IsGuarded start
unfolding start
start-IsGuarded = record { watched = inl refl; ended = λ e. cc }

pub read-IsGuarded :
    (c : Connect) (ec : Bool)
    → c.waiting ≡ for_request
    → IsGuarded c
    → IsGuarded (request_read c ec)
unfolding request_read
read-IsGuarded c true h g = record { watched = inr (inr refl); ended = λ e. ((g.ended e).0, refl) }
read-IsGuarded c false h g = record {
  watched = elim g.watched [
    | inl e ↦ inl e
    | inr (inl e) ↦ inr (inl e)
    | inr (inr e) ↦ absurd (cc)
  ];
  ended = λ e. absurd (let f = (g.ended e).1 in cc);
}

pub over-IsGuarded : (c : Connect) (ec : Bool) → IsGuarded c → IsGuarded (deadline_over c ec)
unfolding deadline_over
over-IsGuarded c true g = g
over-IsGuarded c false g = record { watched = inr (inl refl); ended = λ e. cc }

-- The response has been written, and the shutdown has been tried.
pub ended-IsGuarded :
    (c : Connect) (s : Socket)
    → IsGuarded (record c { socket = s; deadline = false; waiting = for_nothing })
ended-IsGuarded c s = record { watched = inr (inr refl); ended = λ e. (refl, refl) }

Step-IsGuarded : {c d : Connect} → Step c d → IsGuarded c → IsGuarded d
unfolding response_written
Step-IsGuarded {c} (reads ec h) g = read-IsGuarded c ec h g
Step-IsGuarded {c} (writes ec h) g = ended-IsGuarded c (shutdown_send ec c.socket)
Step-IsGuarded {c} (expires h) g = over-IsGuarded c false g
Step-IsGuarded {c} (cancelled h) g = over-IsGuarded c true g

-- Whatever callbacks come, and in whatever order, and whether the shutdown succeeds or fails: while a
-- connection waits for the request, or for the response to be written, its timer is armed, unless its
-- socket has been closed; and one whose socket has been shut down waits for neither, and its timer is
-- not armed.
pub Reach-IsGuarded : {c : Connect} → Reach c → IsGuarded c
Reach-IsGuarded begin = start-IsGuarded
Reach-IsGuarded (next r st) = Step-IsGuarded st (Reach-IsGuarded r)
