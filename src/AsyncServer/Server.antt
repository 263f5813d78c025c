-- ===== src/AsyncServer/Server.antt =====
-- AsyncServer/Server.h and Server.cpp: the acceptor and the sessions that it keeps alive, by uuid.
-- The handlers run one after another here. A new session, which the constructor makes with a random
-- uuid, is an argument of the call that makes it.
pub mod Sessions
mod Tests
use boost_learn.Base.{
  ℕ, List, [], ◌∷◌, ◌++◌, Bool, true, false, Option, none, some, ◌==◌, if◌then◌else◌,
}
use boost_learn.SessionMap.{insert_session, erase_session}
use boost_learn.AsyncServer.Session.{Session, Effect}
use boost_learn.AsyncServer.Session.Sending.{start}

-- `accepting`: the session that waits in `async_accept`.
pub record Server : Type 0 where
  pub sessions : List (ℕ × Session)
  pub accepting : Option Session

-- Server::ClearServer
unfoldable pub clear_server : Server → ℕ → Server
unfolding erase_session
clear_server v uuid = record v { sessions = erase_session v.sessions uuid }

-- Server::start_accept
unfoldable pub start_accept : Server → Session → Server
start_accept v new_session = record v { accepting = some new_session }

-- Server::Server
unfoldable pub new_server : Session → Server
unfolding start_accept
new_server new_session = start_accept (record { sessions = []; accepting = none }) new_session

-- new_session->start(), and the insertion
unfoldable pub admit : Server → Session → Server × List Effect
unfolding insert_session start
admit v new_session =
    let started = start new_session in
    (record v { sessions = insert_session v.sessions started.0.uuid started.0 }, started.1)

-- Server::handle_accept. `next` is the session that `start_accept` makes.
unfoldable pub handle_accept : Server → Session → Bool → Session → Server × List Effect
unfolding admit start_accept
handle_accept v new_session error next =
    let admitted = if error then (v, []) else admit v new_session in
    (start_accept admitted.0 next, admitted.1)

-- What can happen: the connection that is awaited comes, or fails to; a session is cleared.
pub data Event : Type 0 where
  accepts : Bool → Session → Event
  clears : ℕ → Event

unfoldable pub act : Server → Event → Server
unfolding handle_accept clear_server
act v (accepts error next) = elim v.accepting [
  | none ↦ v
  | some s ↦ (handle_accept v s error next).0
]
act v (clears uuid) = clear_server v uuid

unfoldable pub run : Server → List Event → Server
unfolding act
run v [] = v
run v (e ∷ es) = run (act v e) es
