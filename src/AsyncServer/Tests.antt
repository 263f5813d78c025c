-- ===== src/AsyncServer/Tests.antt =====
-- The theorems on sessions at concrete inputs, and runs of the code.
use boost_learn.Base.{
  ℕ, ◌≡◌, ◌≢◌, ◌≤◌, refl, List, [], ◌∷◌, ◌++◌, inl, false, some, none, arith, length, replicate,
  length-replicate, map,
}
use boost_learn.Platform.LittleEndian.{platform}
use boost_learn.AsyncServer.MsgNode.{RecvNode, send_node}
use boost_learn.AsyncServer.MsgNode.Contents.{fresh_node, fresh_node-IsValid}
use boost_learn.AsyncServer.MsgNode.Encoding.{send_node_too_long}
use boost_learn.AsyncServer.Session.{
  Session, async_read_some, post_msg_to_que, spinning, returned, handle_read, deliver,
}
use boost_learn.AsyncServer.Session.Decode.{Message, message, ready, head, broken, decode}
use boost_learn.AsyncServer.Session.Stream.{encode_all}
use boost_learn.AsyncServer.Session.View.{observe, IsReadingHead}
use boost_learn.AsyncServer.Session.Invariant.{Keeps, MeetsNegative}
use boost_learn.AsyncServer.Session.Receive.{
  IsRead, handle_read_refines, handle_read_returns, handle_read-Keeps,
}
use boost_learn.Json.{answer, int_member, string_member}
use boost_learn.Json.Objects.{json}
use boost_learn.WorkQueue.Order.{replies_of}
use boost_learn.AsyncServer.LogicSystem.{hello_world_callback, received_prefix}
use boost_learn.AsyncServer.Served.{
  AreAnswered, all_replies, frame_of, IsServed, handle_read-IsServed,
}
use boost_learn.AsyncServer.Session.Split.{split_message}
use boost_learn.AsyncServer.Session.Link.{Link, Op, sends, completes, fails, run}
use boost_learn.AsyncServer.Session.Delivery.{run_refines}
use boost_learn.AsyncServer.Session.Outbox.{live, is_live, InOrder, outbox, outbox_run}
use boost_learn.AsyncServer.Session.Order.{frames, run_bounded}
use boost_learn.Memory.{memcpy, memset_zero}
use boost_learn.AsyncServer.Session.{Effect}
use boost_learn.AsyncServer.Session.View.{view_message}

zeros : List ℕ
zeros = replicate 2048 0

zeros_array : 2048 ≤ length zeros
unfolding zeros
zeros_array = omega (arith, length-replicate {A = ℕ} 2048 0)

-- A session that has just started.
abbrev fresh : Session
fresh = record {
  uuid = 7;
  recv_head_node = fresh_node platform 4;
  b_head_parse = false;
  recv_msg_node = none;
  buffer = zeros;
  send_queue = [];
  send_pending = false;
}

fresh-IsReadingHead : IsReadingHead fresh
fresh-IsReadingHead = record {
  at_head = refl;
  head_valid = fresh_node-IsValid platform 4 (omega arith);
  head_size = refl;
  head_open = omega arith;
  array = zeros_array;
}

-- Message 1001, "hi".
abbrev greeting : Message
greeting = record { msg_id = 1001; body = 104 ∷ 105 ∷ [] }

abbrev greeting_bytes : List ℕ
greeting_bytes = 3 ∷ 233 ∷ 0 ∷ 2 ∷ 104 ∷ 105 ∷ []

-- The message, and the first byte of the next one.
abbrev first_read : List ℕ
first_read = 3 ∷ 233 ∷ 0 ∷ 2 ∷ 104 ∷ 105 ∷ 3 ∷ []

first_read_run :
    observe (handle_read platform 3 (deliver fresh first_read) false 7)
    ≡ record { events = message greeting ∷ ready ∷ []; pending = head (3 ∷ []) }
unfolding handle_read memcpy memset_zero zeros
first_read_run = refl

handle_read_refines_example :
    observe (handle_read platform 3 (deliver fresh first_read) false 7) ≡ decode 7 3 first_read
handle_read_refines_example =
    handle_read_refines platform 3 fresh first_read fresh-IsReadingHead (omega arith) (omega arith)

not_broken : (decode 7 8 first_read).pending ≢ broken
unfolding decode
not_broken e = cc

handle_read_returns_example :
    (s' : Session) × (es : List Effect) × (handle_read platform 8 (deliver fresh first_read) false 7
      ≡ returned s' es)
handle_read_returns_example =
    handle_read_returns platform 8 fresh first_read fresh-IsReadingHead (omega arith) (omega arith)
      (omega arith) not_broken

-- A message with one byte, and a head whose length is -2.
abbrev negative_head : List ℕ
negative_head = 3 ∷ 233 ∷ 0 ∷ 1 ∷ 65 ∷ 3 ∷ 233 ∷ 255 ∷ 254 ∷ []

handle_read-Keeps_example :
    Keeps
      (MeetsNegative platform (deliver fresh negative_head) 0 9)
      (handle_read platform 3 (deliver fresh negative_head) false 9)
handle_read-Keeps_example =
    handle_read-Keeps platform 3 fresh false negative_head (inl fresh-IsReadingHead) (omega arith)

abbrev start_bytes : List ℕ
start_bytes = 3 ∷ 233 ∷ 0 ∷ 2 ∷ 104 ∷ []

split_message_example :
    (s₁ : Session) × (s₂ : Session) × (r : RecvNode) × (handle_read platform 1
        (deliver fresh start_bytes)
        false
        5
      ≡ returned s₁ (async_read_some ∷ []))
    × (handle_read platform 1 (deliver s₁ (105 ∷ [])) false 1
        ≡ returned s₂ (post_msg_to_que r ∷ async_read_some ∷ []))
    × (view_message r ≡ greeting)
    × ((rounds : ℕ) (chunk : List ℕ)
        → IsRead chunk
        → handle_read platform rounds (deliver s₂ chunk) false (length chunk)
          ≡ spinning (deliver s₂ chunk) (replicate rounds (post_msg_to_que r)))
split_message_example =
    split_message platform 0 fresh greeting (104 ∷ []) (105 ∷ []) fresh-IsReadingHead refl
      (omega arith) refl (omega arith) (omega arith) (omega arith)

send_node_too_long_example : send_node platform zeros 65600 1001 ≡ none
send_node_too_long_example = send_node_too_long platform zeros 65600 1001 (omega arith)

-- Two messages are sent, the first one goes out, and the second one's write fails.
abbrev idle_link : Link
idle_link = live fresh [] []

abbrev two_sends : List Op
two_sends = sends (104 ∷ 105 ∷ []) 2 1001 ∷ sends (33 ∷ []) 1 1001 ∷ completes ∷ fails ∷ []

run_refines_example :
    (l' : Link) × (run platform idle_link two_sends ≡ some l')
    × InOrder l'
    × (outbox l' ≡ outbox_run (record { waiting = []; done = []; lost = false }) two_sends)
run_refines_example =
    run_refines platform idle_link two_sends (is_live fresh [] [] refl) (omega arith)

run_bounded_example :
    (l' : Link) × (run platform idle_link two_sends ≡ some l')
    × (length l'.session.send_queue ≤ 1001)
run_bounded_example =
    run_bounded platform idle_link two_sends (is_live fresh [] [] refl) (omega arith) (omega arith)

-- A request (id 42, data "hi"), and the first byte of the next message.
abbrev asked : Message
asked = record { msg_id = 1001; body = 42 ∷ 104 ∷ 105 ∷ [] }

abbrev asked_bytes : List ℕ
asked_bytes = 3 ∷ 233 ∷ 0 ∷ 3 ∷ 42 ∷ 104 ∷ 105 ∷ 3 ∷ []

asked_encoded : asked_bytes ≡ encode_all (asked ∷ []) ++ 3 ∷ []
unfolding encode_all
asked_encoded = refl

asked-AreAnswered : AreAnswered json 7 (asked ∷ [])
unfolding hello_world_callback answer int_member string_member
asked-AreAnswered = ((_, refl), tt)

-- What the server answers is sent, and goes out.
abbrev answer_text : List ℕ
answer_text = 42 ∷ received_prefix ++ 104 ∷ 105 ∷ []

abbrev answer_sent : List Op
answer_sent = sends answer_text (length answer_text) 42 ∷ completes ∷ []

answer_framed : frames answer_sent ≡ map frame_of (all_replies json 7 (asked ∷ []))
unfolding frames replies_of hello_world_callback answer int_member string_member
answer_framed = refl

one_answer : length (all_replies json 7 (asked ∷ [])) ≤ 1001
unfolding replies_of hello_world_callback answer int_member string_member
one_answer = omega arith

handle_read-IsServed_example :
    IsServed json platform fresh asked_bytes 2 (all_replies json 7 (asked ∷ [])) answer_sent
handle_read-IsServed_example =
    handle_read-IsServed json platform fresh asked_bytes (asked ∷ []) (3 ∷ []) answer_sent
      fresh-IsReadingHead refl (omega arith) (omega arith) asked_encoded (omega arith) (omega arith)
      asked-AreAnswered (omega arith) answer_framed one_answer
