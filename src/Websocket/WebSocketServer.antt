-- ===== src/Websocket/WebSocketServer.antt =====
-- beast_websocket/WebSocketServer.cpp and its main. The handshake of an accepted connection is
-- `handle_accept` of Connection.
use boost_learn.Base.{
  ◌≤◌, ◌≡◌, refl, ap, ◌∙◌, List, [], ◌∷◌, ◌++◌, Bool, true, false, Option, none, some, arith,
  length,
}
use boost_learn.Websocket.Connection.{Connection}

-- `accepting`: the connection whose socket `async_accept` was given. `accepted`: those whose handshake was
-- started, oldest first.
pub record WebSocketServer : Type 0 where
  pub accepting : Option Connection
  pub accepted : List Connection

-- WebSocketServer::WebSocketServer
unfoldable pub new_server : WebSocketServer
new_server = record { accepting = none; accepted = [] }

-- WebSocketServer::Start_Accept, with the connection that it makes
unfoldable pub start_accept : WebSocketServer → Connection → WebSocketServer
start_accept v connect = record v { accepting = some connect }

-- The callback of async_accept.
unfoldable pub accept_callback : WebSocketServer → Connection → Bool → WebSocketServer
accept_callback v connect true = record v { accepting = none }
accept_callback v connect false = record v {
  accepting = none;
  accepted = v.accepted ++ connect ∷ [];
}

-- A client connects, or the accept fails; without an accept that waits nothing happens.
unfoldable pub arrives : WebSocketServer → Option Connection → Bool → WebSocketServer
unfolding accept_callback
arrives v none ec = v
arrives v (some connect) ec = accept_callback v connect ec

unfoldable pub arrive_all : WebSocketServer → List Bool → WebSocketServer
unfolding arrives
arrive_all v [] = v
arrive_all v (ec ∷ ecs) = arrive_all (arrives v v.accepting ec) ecs

-- main, up to `ioc.run()`
unfoldable pub main : Connection → WebSocketServer
unfolding new_server start_accept
main connect = start_accept new_server connect

idle_stays : (v : WebSocketServer) (ecs : List Bool) → v.accepting ≡ none → arrive_all v ecs ≡ v
unfolding arrive_all arrives
idle_stays v [] e = refl
idle_stays v (ec ∷ ecs) e = ap (λ o. arrive_all (arrives v o ec) ecs) e ∙ idle_stays v ecs e

-- However many clients try to connect, and whether accepts fail or not: only what becomes of the first
-- counts. The server accepts one connection at most, the one that main has made, and once a client has
-- tried it never accepts again.
pub arrive_all-main :
    (connect : Connection) (ec : Bool) (ecs : List Bool)
    → (arrive_all (main connect) (ec ∷ ecs) ≡ accept_callback new_server connect ec)
      × (length (arrive_all (main connect) (ec ∷ ecs)).accepted ≤ 1)
      × ((arrive_all (main connect) (ec ∷ ecs)).accepting ≡ none)
unfolding arrive_all arrives main start_accept new_server accept_callback
arrive_all-main connect true ecs =
    let once = idle_stays (accept_callback new_server connect true) ecs refl in
    (once, omega (arith, ap (λ v. length v.accepted) once), ap (λ v. v.accepting) once)
arrive_all-main connect false ecs =
    let once = idle_stays (accept_callback new_server connect false) ecs refl in
    (once, omega (arith, ap (λ v. length v.accepted) once), ap (λ v. v.accepting) once)
