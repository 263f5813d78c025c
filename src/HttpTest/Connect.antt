-- ===== src/HttpTest/Connect.antt =====
-- The life of a connection: that of beast_http_server, but that the callback of a write looks at the
-- error.
use boost_learn.Base.{◌≡◌, refl, inr, Bool, true, false}
use boost_learn.HttpServer.Connect.{
  Connect, for_request, for_write, for_nothing, start, request_read, deadline_over, shutdown_send,
}
use boost_learn.HttpServer.Deadline.{
  IsGuarded, start-IsGuarded, read-IsGuarded, over-IsGuarded, ended-IsGuarded,
}

-- The callback of write_response, with its error and that of the shutdown, which it does not look at.
unfoldable pub response_written : Connect → Bool → Bool → Connect
response_written c true shutdown_ec = record c { waiting = for_nothing }
response_written c false shutdown_ec = record c {
  socket = shutdown_send shutdown_ec c.socket;
  deadline = false;
  waiting = for_nothing;
}

pub data Step (c : Connect) : Connect → Type 0 where
  reads : (ec : Bool) → c.waiting ≡ for_request → Step c (request_read c ec)
  writes :
      (ec shutdown_ec : Bool) → c.waiting ≡ for_write → Step c (response_written c ec shutdown_ec)
  expires : c.deadline ≡ true → Step c (deadline_over c false)
  cancelled : c.deadline ≡ false → Step c (deadline_over c true)

pub data Reach : Connect → Type 0 where
  begin : Reach start
  next : {c d : Connect} → Reach c → Step c d → Reach d

written-IsGuarded :
    (c : Connect) (ec shutdown_ec : Bool)
    → c.waiting ≡ for_write
    → IsGuarded c
    → IsGuarded (response_written c ec shutdown_ec)
unfolding response_written
written-IsGuarded c true shutdown_ec h g = record {
  watched = inr (inr refl);
  ended = λ e. ((g.ended e).0, refl);
}
written-IsGuarded c false shutdown_ec h g = ended-IsGuarded c (shutdown_send shutdown_ec c.socket)

Step-IsGuarded : {c d : Connect} → Step c d → IsGuarded c → IsGuarded d
Step-IsGuarded {c} (reads ec h) g = read-IsGuarded c ec h g
Step-IsGuarded {c} (writes ec shutdown_ec h) g = written-IsGuarded c ec shutdown_ec h g
Step-IsGuarded {c} (expires h) g = over-IsGuarded c false g
Step-IsGuarded {c} (cancelled h) g = over-IsGuarded c true g

-- Here too a connection that waits for the request, or for its response to be written, has its timer
-- armed or its socket closed, and one whose socket has been shut down has no timer armed.
pub Reach-IsGuarded_httptest : {c : Connect} → Reach c → IsGuarded c
Reach-IsGuarded_httptest begin = start-IsGuarded
Reach-IsGuarded_httptest (next r st) = Step-IsGuarded st (Reach-IsGuarded_httptest r)
