-- ===== src/CoroutineService/CServer.antt =====
-- CoroutineService/CServer.h and CServer.cpp: the acceptor and the sessions that it keeps alive, by
-- uuid. All its handlers, and the sessions' coroutines, run on the one context that `main` runs, one
-- after another. A new session, which the constructor makes with a random uuid, is an argument.
pub mod Cleared
mod Tests
use boost_learn.Base.{ℕ, List, [], ◌∷◌, Bool, true, false, Option, none, some, ◌==◌, if◌then◌else◌}
use boost_learn.SessionMap.{insert_session, erase_session}
use boost_learn.CoroutineService.CSession.{
  CSession, Effect, post_msg_to_que, clear_server, close_socket,
}

-- `accepting`: the session that waits in `async_accept`.
pub record CServer : Type 0 where
  pub sessions : List (ℕ × CSession)
  pub accepting : Option CSession

-- CServer::ClearServer
unfoldable pub clear_session : CServer → ℕ → CServer
unfolding erase_session
clear_session v uuid = record v { sessions = erase_session v.sessions uuid }

-- CServer::start_accept
unfoldable pub start_accept : CServer → CSession → CServer
start_accept v new_session = record v { accepting = some new_session }

-- CServer::CServer
unfoldable pub new_server : CSession → CServer
unfolding start_accept
new_server new_session = start_accept (record { sessions = []; accepting = none }) new_session

-- CServer::handle_accept, once the coroutine that it starts has come to its first read. `next` is the
-- session that `start_accept` makes.
unfoldable pub handle_accept : CServer → CSession → Bool → CSession → CServer
unfolding insert_session start_accept
handle_accept v new_session error next =
    let admitted =
      if error
      then v
      else record v { sessions = insert_session v.sessions new_session.uuid new_session } in
    start_accept admitted next

-- What the calls of a session do to the server.
unfoldable pub perform : CServer → List Effect → CServer
unfolding clear_session
perform v [] = v
perform v (post_msg_to_que r ∷ es) = perform v es
perform v (clear_server uuid ∷ es) = perform (clear_session v uuid) es
perform v (close_socket ∷ es) = perform v es
