-- ===== src/AsyncServer/Server/Tests.antt =====
-- The theorem on the server at a concrete input.
use boost_learn.Base.{ℕ, ◌≡◌, refl, List, [], ◌∷◌, true, false, none, some}
use boost_learn.Platform.LittleEndian.{platform}
use boost_learn.AsyncServer.MsgNode.Contents.{fresh_node}
use boost_learn.SessionMap.{find_session}
use boost_learn.AsyncServer.Session.{Session}
use boost_learn.AsyncServer.Server.{Event, accepts, clears, new_server, run, start_accept}
use boost_learn.AsyncServer.Server.Sessions.{kept, awaited_after, find-run}

abbrev session_of : ℕ → Session
session_of uuid = record {
  uuid = uuid;
  recv_head_node = fresh_node platform 4;
  b_head_parse = false;
  recv_msg_node = none;
  buffer = [];
  send_queue = [];
  send_pending = false;
}

-- Session 1 comes, the accept of session 2 fails, session 3 comes, and session 1 is cleared.
abbrev three_accepts : List Event
three_accepts =
    accepts false (session_of 2)
    ∷ accepts true (session_of 3)
    ∷ accepts false (session_of 4)
    ∷ clears 1
    ∷ []

find-run_example :
    (find_session (run (new_server (session_of 1)) three_accepts).sessions 3
      ≡ kept 3 none (session_of 1) three_accepts)
    × ((run (new_server (session_of 1)) three_accepts).accepting
        ≡ some (awaited_after (session_of 1) three_accepts))
unfolding new_server start_accept find_session
find-run_example = find-run (new_server (session_of 1)) (session_of 1) three_accepts 3 refl
