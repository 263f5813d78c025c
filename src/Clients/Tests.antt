-- ===== src/Clients/Tests.antt =====
-- The theorems on the clients at concrete inputs.
use boost_learn.Base.{
  ℕ, ◌≡◌, ◌≤◌, refl, ap, List, [], ◌∷◌, ◌++◌, false, Option, some, none, arith, length, replicate,
  length-replicate, ◌/◌, ◌+◌, ◌%◌,
}
use boost_learn.Platform.LittleEndian.{platform}
use boost_learn.Json.{data_key}
use boost_learn.Json.Objects.{json}
use boost_learn.Json.Answer.{IsRequest}
use boost_learn.AsyncServer.MsgNode.Contents.{fresh_node, fresh_node-IsValid}
use boost_learn.AsyncServer.LogicSystem.{received_prefix}
use boost_learn.AsyncServer.Session.{Session}
use boost_learn.AsyncServer.Session.View.{IsReadingHead}
use boost_learn.ProtobufServer.Message.{reply}
use boost_learn.ProtobufServer.Message.Fields.{fields}
use boost_learn.AsyncServer.Session.Stream.{encode}
use boost_learn.CoroutineService.Socket.Bytes.{received}
use boost_learn.CoroutineService.CSession.{CSession}
use boost_learn.CoroutineService.CSession.Round.{IsOpen}
use boost_learn.CoroutineService.LogicSystem as CoroutineLogic
use boost_learn.Clients.JsonClient.Exchange.{send_data-encode}
use boost_learn.Clients.JsonClient.Coroutine
use boost_learn.Clients.JsonClient.Server.{Exchanged, request_answered}
use boost_learn.Clients.SyncClient
use boost_learn.ProtobufServer.Session as ProtobufSession
use boost_learn.ProtobufServer.Session.Whole.{at_head}
use boost_learn.EchoServers.TestClient.{strlen}
use boost_learn.Clients.SyncClient.Server.{IsLowFirst, line_refused}
use boost_learn.Clients.ProtobufClient.Server
use boost_learn.Clients.ProtobufClient.Server.{request_replied}

zeros : List ℕ
zeros = replicate 2048 0

zeros_array : 2048 ≤ length zeros
unfolding zeros
zeros_array = omega (arith, length-replicate {A = ℕ} 2048 0)

-- A session that has just started.
abbrev fresh : Session
fresh = record {
  uuid = 7;
  recv_head_node = fresh_node platform 4;
  b_head_parse = false;
  recv_msg_node = none;
  buffer = zeros;
  send_queue = [];
  send_pending = false;
}

fresh-IsReadingHead : IsReadingHead fresh
fresh-IsReadingHead = record {
  at_head = refl;
  head_valid = fresh_node-IsValid platform 4 (omega arith);
  head_size = refl;
  head_open = omega arith;
  array = zeros_array;
}

-- id 42, data "hi"
abbrev request : List ℕ
request = 42 ∷ b'h' ∷ b'i' ∷ []

request-IsRequest : IsRequest json (json.parse request) 42 (b'h' ∷ b'i' ∷ [])
request-IsRequest = record {
  id_member = _;
  data_member = _;
  has_id = refl;
  has_data = refl;
  id_int = refl;
  data_string = refl;
}

abbrev answer_length : Option json.Value → ℕ
answer_length o = elim o [ none ↦ 0 | some u ↦ length (json.to_styled_string u) ]

short_answer :
    (u : json.Value)
    → json.assign (json.parse request) data_key (received_prefix ++ b'h' ∷ b'i' ∷ []) ≡ some u
    → length (json.to_styled_string u) ≤ 2048
short_answer u e = omega (arith, ap answer_length e)

request_answered_example : Exchanged json platform request fresh fresh 42 (b'h' ∷ b'i' ∷ []) []
request_answered_example =
    request_answered json platform request fresh fresh 42 (b'h' ∷ b'i' ∷ []) [] fresh-IsReadingHead
      refl refl (omega arith, (omega arith, (omega arith, tt))) (omega arith) request-IsRequest
      short_answer

abbrev fields_request : List ℕ
fields_request = 8 ∷ 7 ∷ 18 ∷ 2 ∷ b'h' ∷ b'i' ∷ []

request_replied_example :
    Server.Exchanged fields platform 7
      (0 ∷ 0 ∷ 205 ∷ [])
      (0 ∷ 0 ∷ [])
      none
      false
      fields_request
      (b'x' ∷ [])
unfolding reply
request_replied_example =
    request_replied fields platform 7 (0 ∷ 0 ∷ 205 ∷ []) (0 ∷ 0 ∷ []) none false fields_request
      (b'x' ∷ []) refl (omega arith) (omega arith)

abbrev opened : CSession
opened = record {
  uuid = 7;
  recv_head_node = fresh_node platform 4;
  send_que = [];
  recv_msg_node = none;
  b_close = false;
}

opened-IsOpen : IsOpen opened
opened-IsOpen = record {
  not_closed = refl;
  head_valid = fresh_node-IsValid platform 4 (omega arith);
  head_size = refl;
}

short_reply :
    (u : json.Value)
    → json.assign (json.parse request) data_key (CoroutineLogic.received_prefix ++ b'h' ∷ b'i' ∷ [])
      ≡ some u
    → length (json.to_styled_string u) ≤ 2048
short_reply u e = omega (arith, ap answer_length e)

abbrev request_bytes : List ℕ
request_bytes = encode (record { msg_id = 1001; body = request })

request_served_example :
    Coroutine.Exchanged json platform received request opened opened 3
      (request_bytes ++ 9 ∷ [])
      42
      (b'h' ∷ b'i' ∷ [])
      []
      (9 ∷ [])
request_served_example =
    Coroutine.request_served json platform received request opened opened 3
      (request_bytes ++ 9 ∷ []) request_bytes 42 (b'h' ∷ b'i' ∷ []) [] (9 ∷ []) opened-IsOpen refl
      (omega arith) (omega arith) (send_data-encode platform request (omega arith)) refl
      request-IsRequest short_reply

-- An int, the low byte first.
abbrev store_low : ℕ → List ℕ
store_low n = n % 256 ∷ n / 256 % 256 ∷ n / 65536 % 256 ∷ n / 16777216 % 256 ∷ []

store_low-IsLowFirst : IsLowFirst store_low
store_low-IsLowFirst n h =
    let second : n / 256 % 256 ≡ n / 256 = omega arith in
    let third : n / 65536 % 256 ≡ 0 = omega arith in
    let fourth : n / 16777216 % 256 ≡ 0 = omega arith in rw (second, third, fourth)

-- "good evening"
abbrev typed : List ℕ
typed =
    b'g' ∷ b'o' ∷ b'o' ∷ b'd' ∷ b' ' ∷ b'e' ∷ b'v' ∷ b'e' ∷ b'n' ∷ b'i' ∷ b'n' ∷ b'g' ∷ 0 ∷ 205 ∷ []

line_refused_example :
    (sent : List ℕ) × (SyncClient.send_data store_low typed ≡ some sent)
    × (length sent ≡ strlen typed + 2)
    × ((s' : ProtobufSession.Session) × (ProtobufSession.handle_read fields platform 1
            (at_head 7 (0 ∷ 0 ∷ 205 ∷ []) none (sent ++ 0 ∷ []) [] false)
            false
            (length sent)
          ≡ ProtobufSession.returned s' (ProtobufSession.clear_server 7 ∷ [])))
unfolding strlen
line_refused_example =
    line_refused store_low store_low-IsLowFirst typed fields platform 7 (0 ∷ 0 ∷ 205 ∷ []) (0 ∷ [])
      none [] false 0 refl (omega arith) (omega arith)
