-- ===== src/EchoServers/TestClient.antt =====
-- testClient/testClient.cpp: what `main` sends of a line, and what it reads. `none` is an exception or a
-- fault.
use boost_learn.Base.{ℕ, zero, suc, List, [], ◌∷◌, Option, some, take, replicate}
use boost_learn.Memory.{memcpy}
use boost_learn.AsyncServer.MsgNode.{◌>>=◌}
use boost_learn.CoroutineService.Socket.{Socket}

abbrev pub max_length : ℕ
max_length = 1024

-- The chars before the terminator.
unfoldable pub strlen : List ℕ → ℕ
strlen [] = 0
strlen (zero ∷ cs) = 0
strlen (suc c ∷ cs) = suc (strlen cs)

-- `request` holds the line, its terminator and what lies behind it.
unfoldable pub sent : List ℕ → List ℕ
unfolding strlen
sent request = take (strlen request) request

unfoldable pub read_reply : (sock : Socket) → List ℕ → sock.State → Option (List ℕ × sock.State)
unfolding strlen
read_reply sock request st = do
  let request_length = strlen request
  got ← sock.async_read st request_length
  reply ← memcpy (replicate max_length 0) 0 got.0 0 request_length
  some (take request_length reply, got.1)
