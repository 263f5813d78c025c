-- ===== src/Websocket/Tests.antt =====
-- The theorems on a websocket connection at concrete inputs.
use boost_learn.Base.{List, [], ◌∷◌, ◌++◌, ℕ, false, true, ◌≡◌, length, ◌≤◌, none}
use boost_learn.Websocket.Connection.{Connection}
use boost_learn.Websocket.WebSocketServer.{
  main, arrive_all, accept_callback, new_server, arrive_all-main,
}
use boost_learn.Websocket.Link.{receives, completes, breaks_off}
use boost_learn.Websocket.Echo.{idle}
use boost_learn.Websocket.Backlog.{IsStuck, receive_all, backlog_stalls}

abbrev hi : List ℕ
hi = b'h' ∷ b'i' ∷ []

abbrev yo : List ℕ
yo = b'y' ∷ b'o' ∷ []

backlog_stalls_example : IsStuck ([] ++ hi ∷ []) (idle 7 (7 ∷ []) []) (
    receives hi
    ∷ receives yo
    ∷ receive_all [] (completes ∷ receives hi ∷ completes ∷ breaks_off ∷ []))
backlog_stalls_example =
    backlog_stalls 7 (7 ∷ []) [] hi yo [] (receives hi ∷ completes ∷ breaks_off ∷ [])

abbrev first_client : Connection
first_client = record { uuid = 7; que_msg = [] }

-- One client is accepted, and two more try.
arrive_all-main_example :
    (arrive_all (main first_client) (false ∷ false ∷ true ∷ [])
      ≡ accept_callback new_server first_client false)
    × (length (arrive_all (main first_client) (false ∷ false ∷ true ∷ [])).accepted ≤ 1)
    × ((arrive_all (main first_client) (false ∷ false ∷ true ∷ [])).accepting ≡ none)
arrive_all-main_example = arrive_all-main first_client false (false ∷ true ∷ [])
