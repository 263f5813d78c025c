-- ===== src/ProtobufServer/Server.antt =====
-- AsyncServer_useProtobuf/Server.h and Server.cpp: the acceptor, as in AsyncServer. Its one thread runs
-- the handlers one after another. A new session is an argument of the call that makes it, and `started`
-- what `start` makes of it, with the read that it arms.
use boost_learn.Base.{ℕ, ◌≡◌, refl, ap, List, [], Bool, true, false, Option, none, some}
use boost_learn.Platform.{Platform}
use boost_learn.SessionMap.{find_session, insert_session, erase_session}
use boost_learn.SessionMap.Laws.{first_come, find-insert}
use boost_learn.ProtobufServer.Session.{Session, Effect, start}

-- `accepting`: the uuid of the session that waits in `async_accept`, and what its memory holds.
pub record Server : Type 0 where
  pub sessions : List (ℕ × Session)
  pub accepting : Option (ℕ × (Bool × List ℕ))

-- Server::ClearServer
unfoldable pub clear_server : Server → ℕ → Server
unfolding erase_session
clear_server v uuid = record v { sessions = erase_session v.sessions uuid }

-- Server::start_accept
unfoldable pub start_accept : Server → ℕ × (Bool × List ℕ) → Server
start_accept v new_session = record v { accepting = some new_session }

-- Server::Server
unfoldable pub new_server : ℕ × (Bool × List ℕ) → Server
unfolding start_accept
new_server new_session = start_accept (record { sessions = []; accepting = none }) new_session

-- The insertion of a session that has been started; `none` is a fault of `start`.
unfoldable pub admit : Server → Option (Session × List Effect) → Option (Server × List Effect)
unfolding insert_session
admit v none = none
admit v (some (s, es)) = some (record v { sessions = insert_session v.sessions s.uuid s }, es)

abbrev next_accept :
    Option (Server × List Effect) → ℕ × (Bool × List ℕ) → Option (Server × List Effect)
next_accept none next = none
next_accept (some (v, es)) next = some (start_accept v next, es)

-- Server::handle_accept. `next` is the session that `start_accept` makes.
unfoldable pub handle_accept :
    Platform
    → Server
    → ℕ × (Bool × List ℕ)
    → Bool
    → ℕ × (Bool × List ℕ)
    → Option (Server × List Effect)
unfolding admit start_accept start
handle_accept p v (uuid, (pending, chars)) true next = next_accept (some (v, [])) next
handle_accept p v (uuid, (pending, chars)) false next =
    next_accept (admit v (start p uuid pending chars)) next

-- A session that comes without an error is started, and is then what is found under its uuid, if nothing
-- was there before; under the other uuids nothing changes, and the next session is awaited.
pub find-handle_accept :
    (p : Platform) (v : Server) (uuid : ℕ) (pending : Bool) (chars : List ℕ)
    (next : ℕ × (Bool × List ℕ)) (s : Session) (es : List Effect) (u : ℕ)
    → start p uuid pending chars ≡ some (s, es)
    → (w : Server) × (handle_accept p v (uuid, (pending, chars)) false next ≡ some (w, es))
      × (find_session w.sessions u ≡ first_come u s.uuid (find_session v.sessions u) s)
      × (w.accepting ≡ some next)
unfolding handle_accept admit start_accept
find-handle_accept p v uuid pending chars next s es u e =
    let w = record v { sessions = insert_session v.sessions s.uuid s; accepting = some next } in
    (w, ap (λ o. next_accept (admit v o) next) e, find-insert v.sessions s.uuid u s, refl)
