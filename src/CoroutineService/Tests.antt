-- ===== src/CoroutineService/Tests.antt =====
-- The theorems on the coroutine's sessions at concrete inputs.
use boost_learn.Base.{
  ◌≡◌, refl, List, [], ◌∷◌, ◌++◌, true, false, none, arith, ℕ, replicate, length-replicate,
}
use boost_learn.Platform.LittleEndian.{platform}
use boost_learn.AsyncServer.MsgNode.Contents.{fresh_node, fresh_node-IsValid}
use boost_learn.AsyncServer.Session.Decode.{Message}
use boost_learn.AsyncServer.Session.Stream.{encode_all, encode_head}
use boost_learn.AsyncServer.Session.{Session, handle_read, deliver}
use boost_learn.AsyncServer.Session.View.{observe, IsReadingHead}
use boost_learn.AsyncServer.Session.Posted.{posted_events}
use boost_learn.CoroutineService.CSession.Same.{posted, posted_same}
use boost_learn.Json.{answer, int_member, string_member}
use boost_learn.Json.Objects.{json}
use boost_learn.CoroutineService.LogicSystem.{hello_world_callback}
use boost_learn.CoroutineService.Served.{AreAnswered, IsServed, all_replies, start-IsServed}
use boost_learn.CoroutineService.Socket.Bytes.{received}
use boost_learn.CoroutineService.CSession.{CSession, close_socket, clear_server, start}
use boost_learn.CoroutineService.CSession.Round.{IsOpen}
use boost_learn.CoroutineService.CSession.Ends.{Delivers, start-encode_all, start_empty_body}

abbrev opened : CSession
opened = record {
  uuid = 7;
  recv_head_node = fresh_node platform 4;
  send_que = [];
  recv_msg_node = none;
  b_close = false;
}

opened-IsOpen : IsOpen opened
opened-IsOpen = record {
  not_closed = refl;
  head_valid = fresh_node-IsValid platform 4 (omega arith);
  head_size = refl;
}

abbrev two_messages : List Message
two_messages =
    record { msg_id = 1001; body = 104 ∷ 105 ∷ [] } ∷ record { msg_id = 40000; body = 0 ∷ [] } ∷ []

start-encode_all_example :
    Delivers
      (start received platform 3 opened (encode_all two_messages ++ 3 ∷ []))
      two_messages
      (close_socket ∷ clear_server 7 ∷ [])
      true
start-encode_all_example =
    start-encode_all received platform opened (encode_all two_messages ++ 3 ∷ []) two_messages
      (3 ∷ []) opened-IsOpen (omega arith) (omega arith) refl

start_empty_body_example :
    Delivers
      (start received platform 3 opened
        (encode_all two_messages ++ (encode_head 1001 0 ++ encode_all two_messages)))
      two_messages
      (clear_server 7 ∷ close_socket ∷ [])
      true
start_empty_body_example =
    start_empty_body received platform opened
      (encode_all two_messages ++ (encode_head 1001 0 ++ encode_all two_messages)) two_messages 1001
      (encode_all two_messages) opened-IsOpen (omega arith) (omega arith) refl

-- A session of AsyncServer that waits for a head.
abbrev waiting_session : Session
waiting_session = record {
  uuid = 5;
  recv_head_node = fresh_node platform 4;
  b_head_parse = false;
  recv_msg_node = none;
  buffer = replicate 2048 0;
  send_queue = [];
  send_pending = false;
}

waiting_session-IsReadingHead : IsReadingHead waiting_session
waiting_session-IsReadingHead = record {
  at_head = refl;
  head_valid = fresh_node-IsValid platform 4 (omega arith);
  head_size = refl;
  head_open = omega arith;
  array = omega (arith, length-replicate {A = ℕ} 2048 0);
}

abbrev small_messages : List Message
small_messages =
    record { msg_id = 1001; body = 104 ∷ 105 ∷ [] } ∷ record { msg_id = 7; body = 0 ∷ [] } ∷ []

abbrev small_bytes : List ℕ
small_bytes = 3 ∷ 233 ∷ 0 ∷ 2 ∷ 104 ∷ 105 ∷ 0 ∷ 7 ∷ 0 ∷ 1 ∷ 0 ∷ 3 ∷ []

posted_same_example :
    (posted_events
        (observe (handle_read platform 3 (deliver waiting_session small_bytes) false 12)).events
      ≡ posted (start received platform 3 opened small_bytes))
    × (posted (start received platform 3 opened small_bytes) ≡ small_messages)
unfolding encode_all
posted_same_example =
    posted_same platform waiting_session small_bytes received opened small_bytes small_messages
      (3 ∷ []) waiting_session-IsReadingHead refl (omega arith) (omega arith) opened-IsOpen refl
      refl (omega arith) (omega arith)

-- A request (id 42, data "hi"), and a message with an id that has no callback.
abbrev asked : List Message
asked =
    record { msg_id = 1001; body = 42 ∷ 104 ∷ 105 ∷ [] } ∷ record { msg_id = 7; body = 0 ∷ [] } ∷ []

asked-AreAnswered : AreAnswered json 7 asked
unfolding hello_world_callback answer int_member string_member
asked-AreAnswered = ((_, refl), ((_, refl), tt))

start-IsServed_example :
    IsServed json received platform opened (encode_all asked ++ 3 ∷ []) 3 (all_replies json 7 asked)
start-IsServed_example =
    start-IsServed json received platform opened (encode_all asked ++ 3 ∷ []) asked (3 ∷ [])
      opened-IsOpen (omega arith) (omega arith) refl asked-AreAnswered
