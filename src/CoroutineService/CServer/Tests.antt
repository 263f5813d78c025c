-- ===== src/CoroutineService/CServer/Tests.antt =====
-- The theorem on the acceptor at a concrete input.
use boost_learn.Base.{ℕ, ◌≡◌, refl, List, [], ◌∷◌, false, none, some, arith}
use boost_learn.Platform.LittleEndian.{platform}
use boost_learn.AsyncServer.MsgNode.Contents.{fresh_node}
use boost_learn.CoroutineService.Socket.Bytes.{received}
use boost_learn.CoroutineService.CSession.{CSession, start}
use boost_learn.SessionMap.{find_session}
use boost_learn.CoroutineService.CServer.{CServer, handle_accept}
use boost_learn.CoroutineService.CServer.Cleared.{Leaves, accepted-Leaves}

abbrev session_of : ℕ → CSession
session_of uuid = record {
  uuid = uuid;
  recv_head_node = fresh_node platform 4;
  send_que = [];
  recv_msg_node = none;
  b_close = false;
}

-- Another session is served.
abbrev serving : CServer
serving = record { sessions = (3, session_of 3) ∷ []; accepting = some (session_of 7) }

-- A message with the body "hi", and half of a head.
abbrev coming : List ℕ
coming = 3 ∷ 233 ∷ 0 ∷ 2 ∷ b'h' ∷ b'i' ∷ 3 ∷ 233 ∷ []

accepted-Leaves_example :
    (find_session (handle_accept serving (session_of 7) false (session_of 8)).sessions 7
      ≡ some (session_of 7))
    × Leaves serving
        (handle_accept serving (session_of 7) false (session_of 8))
        7
        3
        (start received platform 9 (session_of 7) coming)
unfolding find_session
accepted-Leaves_example =
    accepted-Leaves serving (session_of 7) (session_of 8) refl received platform 9 coming 3
      (refl, refl) (omega arith) (omega arith)
