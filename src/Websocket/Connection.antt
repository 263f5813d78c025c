-- ===== src/Websocket/Connection.antt =====
-- beast_websocket/connection.h and connection.cpp. The calls of a connection and the callbacks that
-- they hand to Boost.Beast are functions of its state, with what they ask of the rest of the program
-- as a list of effects, in order. A message is its bytes; the library is taken to read them from
-- `async_write`'s buffer at the call.
use boost_learn.Base.{
  ℕ, List, [], ◌∷◌, ◌++◌, Bool, true, false, Option, none, some, ltb, if◌then◌else◌, length,
}

pub data Effect : Type 0 where
  async_read : Effect
  async_write : List ℕ → Effect
  add_connection : Effect
  rm_connection : Effect

pub record Connection : Type 0 where
  pub uuid : ℕ
  pub que_msg : List (List ℕ)

-- connection::connection
unfoldable pub new_connection : ℕ → Connection
new_connection uuid = record { uuid = uuid; que_msg = [] }

-- connection::AsyncSend
unfoldable pub async_send : Connection → List ℕ → Connection × List Effect
async_send c msg =
    let pushed = record c { que_msg = c.que_msg ++ msg ∷ [] } in
    if ltb 0 (length c.que_msg) then (pushed, []) else (pushed, async_write msg ∷ [])

-- What `handle_write` does with the queue. `none` is the `pop` of an empty queue. `throws`: the copy of
-- the next message throws, and the callback's `catch` takes the connection out of the map.
unfoldable pub write_next : Connection → List (List ℕ) → Bool → Option (Connection × List Effect)
unfolding async_send
write_next c [] throws = none
write_next c (sent ∷ []) throws = some (record c { que_msg = [] }, [])
write_next c (sent ∷ next ∷ rest) true =
    some (record c { que_msg = next ∷ rest }, rm_connection ∷ [])
write_next c (sent ∷ next ∷ rest) false =
    some (async_send (record c { que_msg = next ∷ rest }) next)

-- The callback of `async_write`.
unfoldable pub handle_write : Connection → Bool → Bool → Option (Connection × List Effect)
unfolding write_next
handle_write c ec throws =
    if ec then some (c, rm_connection ∷ []) else write_next c c.que_msg throws

-- connection::start
abbrev pub start : List Effect
start = async_read ∷ []

-- The callback of `async_read`, with what it has read.
unfoldable pub handle_read : Connection → Bool → List ℕ → Connection × List Effect
unfolding async_send
handle_read c ec recv_data =
    if ec
    then (c, rm_connection ∷ [])
    else (let sent = async_send c recv_data in (sent.0, sent.1 ++ start))

-- The callback of `async_accept` in connection::Async_accept.
unfoldable pub handle_accept : Connection → Bool → Connection × List Effect
handle_accept c ec = if ec then (c, []) else (c, add_connection ∷ start)
