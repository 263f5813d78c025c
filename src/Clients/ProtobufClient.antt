-- ===== src/Clients/ProtobufClient.antt =====
-- SyncClient_useProtobuf/SyncClient_useProtobuf.cpp: the bytes that `main` sends, and what it reads, as
-- in JsonClient.
pub mod Server
use boost_learn.Base.{ℕ, ◌+◌, List, Option, none, some, length, take, replicate, if◌then◌else◌}
use boost_learn.Memory.{memcpy}
use boost_learn.Platform.{Platform, to_short, is_negative}
use boost_learn.AsyncServer.MsgNode.{bytes_of_short, ◌>>=◌}
use boost_learn.AsyncServer.Session.{read_short}
use boost_learn.Clients.Stack.{zeros}
use boost_learn.CoroutineService.Socket.{Socket}

abbrev pub max_length : ℕ
max_length = 2048

abbrev pub head_length : ℕ
head_length = 2

-- The bytes that `asio::write` is given, for the text that SerializeToString makes.
unfoldable pub send_data : Platform → List ℕ → Option (List ℕ)
send_data p request = do
  let request_length = to_short (length request)
  let request_host_length = p.host_to_network_short request_length
  with_len ← memcpy zeros 0 (bytes_of_short p request_host_length) 0 2
  filled ← if is_negative request_length then none else memcpy with_len 2 request 0 request_length
  some (take (request_length + 2) filled)

-- The text that ParseFromArray is given, and what is then left to read.
unfoldable pub read_reply : (sock : Socket) → Platform → sock.State → Option (List ℕ × sock.State)
read_reply sock p st = do
  reply_head ← sock.async_read st head_length
  let msglen = read_short p reply_head.0 0
  reply ← if is_negative msglen then none else sock.async_read reply_head.1 msglen
  msg ← memcpy zeros 0 reply.0 0 msglen
  some (take msglen msg, reply.1)
