-- ===== src/Clients/SyncClient.antt =====
-- SyncClient/SyncClient.cpp: the bytes that `main` sends, and what it reads. `none` is an exception or a
-- fault.
pub mod Server
use boost_learn.Base.{
  ℕ, ◌+◌, List, Option, none, some, length, take, replicate, if◌then◌else◌, get_or, ltb,
}
use boost_learn.Memory.{memcpy}
use boost_learn.Platform.{Platform, is_negative}
use boost_learn.AsyncServer.MsgNode.{◌>>=◌}
use boost_learn.CoroutineService.Socket.{Socket}
use boost_learn.EchoServers.TestClient.{strlen}

abbrev pub max_length : ℕ
max_length = 1024

abbrev pub head_length : ℕ
head_length = 2

-- The bytes that `asio::write` is given, for the array that `getline` has filled: the line, its
-- terminator and what lies behind it. `store_int` is how the machine keeps an int.
unfoldable pub send_data : (ℕ → List ℕ) → List ℕ → Option (List ℕ)
unfolding strlen
send_data store_int request = do
  let request_length = strlen request
  with_len ← memcpy (replicate max_length 0) 0 (store_int request_length) 0 2
  filled ← memcpy with_len 2 request 0 request_length
  some (take (request_length + 2) filled)

-- How much of `msg` asio::buffer(msg, msglen) hands out: a negative length is a large one.
abbrev pub reply_room : ℕ → ℕ
reply_room msglen =
    if is_negative msglen
    then max_length
    else (if ltb max_length msglen then max_length else msglen)

-- What is printed, and what is then left to read. Printing more than the array holds is a fault, and
-- nothing is printed for a negative length.
unfoldable pub read_reply : (sock : Socket) → Platform → sock.State → Option (List ℕ × sock.State)
read_reply sock p st = do
  reply_head ← sock.async_read st head_length
  let msglen = p.load_short (get_or reply_head.0 0 0) (get_or reply_head.0 1 0)
  reply ← sock.async_read reply_head.1 (reply_room msglen)
  msg ← memcpy (replicate max_length 0) 0 reply.0 0 (reply_room msglen)
  (if is_negative msglen
      then some (take 0 msg, reply.1)
      else (if ltb max_length msglen then none else some (take msglen msg, reply.1)))
