-- ===== src/HttpServer/Accept.antt =====
-- http_server of beast_http_server.cpp: the accept that each callback arms again.
use boost_learn.Base.{◌≡◌, refl, List, [], ◌∷◌, Bool, true, false}
use boost_learn.HttpServer.Connect.{Connect, start}

-- `accepting`: async_accept has been called. `connects`: the connections that were started, newest first.
pub record Accepting : Type 0 where
  pub accepting : Bool
  pub connects : List Connect

-- http_server
unfoldable pub http_server : Accepting → Accepting
http_server a = record a { accepting = true }

-- The callback of async_accept.
unfoldable pub accept_callback : Accepting → Bool → Accepting
unfolding http_server start
accept_callback a true = http_server (record a { accepting = false })
accept_callback a false = http_server (record { accepting = false; connects = start ∷ a.connects })

unfoldable pub accept_all : Accepting → List Bool → Accepting
unfolding accept_callback
accept_all a [] = a
accept_all a (ec ∷ ecs) = accept_all (accept_callback a ec) ecs

abbrev pub started : List Connect → List Bool → List Connect
started cs [] = cs
started cs (true ∷ ecs) = started cs ecs
started cs (false ∷ ecs) = started (start ∷ cs) ecs

-- However many clients come, and however many accepts fail: each client's connection is started, none is
-- lost to a failed accept, and the server still accepts.
pub accept_all-started :
    (a : Accepting) (ecs : List Bool)
    → a.accepting ≡ true
    → ((accept_all a ecs).connects ≡ started a.connects ecs) × ((accept_all a ecs).accepting ≡ true)
unfolding accept_all accept_callback http_server
accept_all-started a [] e = (refl, e)
accept_all-started a (true ∷ ecs) e = accept_all-started (record a { accepting = true }) ecs refl
accept_all-started a (false ∷ ecs) e =
    accept_all-started (record { accepting = true; connects = start ∷ a.connects }) ecs refl
