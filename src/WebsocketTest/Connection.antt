-- ===== src/WebsocketTest/Connection.antt =====
-- websocket_test/connection.cpp. A connection and its effects are those of beast_websocket; as there, the
-- library is taken to read a message at the call.
use boost_learn.Base.{ℕ, List, [], ◌∷◌, ◌++◌, Bool, true, false, Option, none, some, if◌then◌else◌}
use boost_learn.Websocket.Connection.{
  Connection, Effect, async_read, async_write, add_connection, rm_connection,
}

-- connection::connection
unfoldable pub new_connection : ℕ → Connection
new_connection uuid = record { uuid = uuid; que_msg = [] }

-- A message behind others waits; alone it is written.
abbrev write_alone : List (List ℕ) → List ℕ → List Effect
write_alone [] msg = async_write msg ∷ []
write_alone (m ∷ ms) msg = []

-- connection::AsyncSend
unfoldable pub async_send : Connection → List ℕ → Connection × List Effect
async_send c msg = (record c { que_msg = c.que_msg ++ msg ∷ [] }, write_alone c.que_msg msg)

-- que_msg.front(), if there is one, is sent; none waits behind the last. `throws`: its copy throws, and
-- the callback's `catch` does nothing.
unfoldable pub send_front : Connection → Bool → Connection × List Effect
unfolding async_send
send_front c throws = elim c.que_msg [
  | [] ↦ (c, [])
  | m ∷ ms ↦ if throws then (c, []) else async_send c m
]

-- que_msg.pop(), and what follows it; `none` is the `pop` of an empty queue.
unfoldable pub pop_and_send : Connection → List (List ℕ) → Bool → Option (Connection × List Effect)
unfolding send_front
pop_and_send c [] throws = none
pop_and_send c (m ∷ ms) throws = some (send_front (record c { que_msg = ms }) throws)

-- The callback of `async_write` in AsyncSend.
unfoldable pub written : Connection → Bool → Bool → Option (Connection × List Effect)
unfolding pop_and_send
written c true throws = some (c, rm_connection ∷ [])
written c false throws = pop_and_send c c.que_msg throws

-- connection::Start
abbrev pub start : List Effect
start = async_read ∷ []

-- The callback of `async_read` in Start.
unfoldable pub read : Connection → Bool → List ℕ → Connection × List Effect
unfolding async_send
read c true msg = (c, rm_connection ∷ [])
read c false msg = let (c', es) = async_send c msg in (c', es ++ start)

-- The callback of `async_accept` in AsyncAcceptor.
unfoldable pub accepted : Connection → Bool → Connection × List Effect
accepted c true = (c, [])
accepted c false = (c, add_connection ∷ start)
