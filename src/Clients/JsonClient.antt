-- ===== src/Clients/JsonClient.antt =====
-- JsonClient/JsonClient.cpp: the bytes that `main` sends, and what it reads. `asio::read` is the read
-- of Socket, which comes back with the buffer full or throws. `none` is an exception or a fault.
pub mod Exchange
pub mod Server
pub mod Coroutine
use boost_learn.Base.{ℕ, ◌+◌, List, Option, none, some, length, take, replicate, if◌then◌else◌}
use boost_learn.Memory.{memcpy}
use boost_learn.Platform.{Platform, to_short, is_negative}
use boost_learn.AsyncServer.MsgNode.{bytes_of_short, ◌>>=◌}
use boost_learn.AsyncServer.Session.{read_short}
use boost_learn.Clients.Stack.{zeros}
use boost_learn.CoroutineService.Socket.{Socket}

abbrev pub max_length : ℕ
max_length = 2048

abbrev pub head_length : ℕ
head_length = 2

abbrev pub head_total_len : ℕ
head_total_len = 4

abbrev pub msg_id : ℕ
msg_id = 1001

-- The bytes that `asio::write` is given.
unfoldable pub send_data : Platform → List ℕ → Option (List ℕ)
send_data p request = do
  let request_length = to_short (length request)
  let msg_id_host = p.host_to_network_short msg_id
  let request_host_length = p.host_to_network_short request_length
  with_id ← memcpy zeros 0 (bytes_of_short p msg_id_host) 0 2
  with_len ← memcpy with_id 2 (bytes_of_short p request_host_length) 0 2
  filled ←
      if is_negative request_length
      then none
      else memcpy with_len head_total_len request 0 request_length
  some (take (request_length + 4) filled)

-- The id and the text of the reply, and what is then left to read. An array of the stack that is not
-- large enough is a fault.
unfoldable pub read_reply :
    (sock : Socket) → Platform → sock.State → Option ((ℕ × List ℕ) × sock.State)
read_reply sock p st = do
  reply_head ← sock.async_read st head_total_len
  let reply_id = read_short p reply_head.0 0
  let msg_len = read_short p reply_head.0 head_length
  reply ← if is_negative msg_len then none else sock.async_read reply_head.1 msg_len
  msg ← memcpy zeros 0 reply.0 0 msg_len
  some ((reply_id, take msg_len msg), reply.1)
