-- ===== src/CoroutineService/CSession/Sending.antt =====
-- CoroutineService/CSession.cpp, the way out: the two `Send` and `HandleWrite`, each under `_mutex`.
-- `none` is a fault: a node that cannot be made, or `pop` of an empty queue.
use boost_learn.Base.{ℕ, List, [], ◌∷◌, ◌++◌, Bool, Option, none, some, ltb, if◌then◌else◌, length}
use boost_learn.Platform.{Platform, to_short}
use boost_learn.AsyncServer.MsgNode.{SendNode, send_node, ◌>>=◌}
use boost_learn.CoroutineService.Const.{max_length}
use boost_learn.CoroutineService.CSession.{CSession, closed}

pub data Writing : Type 0 where
  async_write : SendNode → Writing
  close_socket : Writing
  clear_server : ℕ → Writing

abbrev pub front {ℓ} : {A : Type ℓ} → List A → Option A
front [] = none
front (x ∷ xs) = some x

module _ (p : Platform) where
  -- CSession::Send(const char*, short, short)
  unfoldable pub send : CSession → List ℕ → ℕ → ℕ → Option (CSession × List Writing)
  unfolding send_node
  send s msg len msg_id =
      let send_que_size = length s.send_que in
      if ltb max_length send_que_size then some (s, []) else (do
        node ← send_node p msg len msg_id
        let pushed = record s { send_que = s.send_que ++ node ∷ [] }
        first ← front pushed.send_que
        some (pushed, if ltb 0 send_que_size then [] else async_write first ∷ []))

  -- CSession::Send(std::string, short)
  unfoldable pub send_string : CSession → List ℕ → ℕ → Option (CSession × List Writing)
  unfolding send
  send_string s msg msg_id = send s msg (to_short (length msg)) msg_id

-- `pop`, and the write of what is then in front
unfoldable pub write_next : CSession → List SendNode → Option (CSession × List Writing)
write_next s [] = none
write_next s (sent ∷ []) = some (record s { send_que = [] }, [])
write_next s (sent ∷ next ∷ rest) =
    some (record s { send_que = next ∷ rest }, async_write next ∷ [])

-- CSession::HandleWrite
unfoldable pub handle_write : CSession → Bool → Option (CSession × List Writing)
unfolding write_next
handle_write s error =
    if error
    then some (closed s, close_socket ∷ clear_server s.uuid ∷ [])
    else write_next s s.send_que
