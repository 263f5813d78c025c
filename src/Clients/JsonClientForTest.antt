-- ===== src/Clients/JsonClientForTest.antt =====
-- JsonClient_forTest'/JsonClient_forTest'.cpp: one of the hundred threads, which each make 500
-- requests over their connection. Some numbers are an `int` here, of which the first two bytes are
-- those of a short, as on the x86 targets of the project file; so a reply is read as in JsonClient.
-- `none` is an exception or a fault.
pub mod Rounds
use boost_learn.Base.{ℕ, zero, suc, ◌+◌, List, [], ◌∷◌, Option, none, some, length, take}
use boost_learn.Memory.{memcpy}
use boost_learn.Platform.{Platform, to_short}
use boost_learn.AsyncServer.MsgNode.{bytes_of_short, ◌>>=◌}
use boost_learn.Clients.Stack.{zeros}
use boost_learn.Clients.JsonClient.{read_reply}
use boost_learn.CoroutineService.Socket.{Socket}

abbrev pub msgid : ℕ
msgid = 1001

abbrev pub requests : ℕ
requests = 500

-- The bytes that `asio::write` is given. The length is cut to a short only in the head.
unfoldable pub send_data : Platform → List ℕ → Option (List ℕ)
send_data p request = do
  let request_length = length request
  let msgid_host = p.host_to_network_short msgid
  let request_host_length = p.host_to_network_short (to_short request_length)
  with_id ← memcpy zeros 0 (bytes_of_short p msgid_host) 0 2
  with_len ← memcpy with_id 2 (bytes_of_short p request_host_length) 0 2
  filled ← memcpy with_len 4 request 0 request_length
  some (take (request_length + 4) filled)

-- What a round sends, and the id and the text that it reads.
pub record Round : Type 0 where
  pub sent : List ℕ
  pub id : ℕ
  pub text : List ℕ

module _ (sock : Socket) (p : Platform) (request : List ℕ) where
  -- The last rounds of the loop.
  unfoldable pub rounds : ℕ → sock.State → Option (List Round × sock.State)
  unfolding send_data read_reply
  rounds zero st = some ([], st)
  rounds (suc left) st = do
    sent ← send_data p request
    reply ← read_reply sock p st
    later ← rounds left reply.1
    some (record { sent = sent; id = reply.0.0; text = reply.0.1 } ∷ later.0, later.1)

  -- while (i < 500)
  unfoldable pub run : sock.State → Option (List Round × sock.State)
  unfolding rounds
  run st = rounds requests st
