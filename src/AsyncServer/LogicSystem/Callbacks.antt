-- ===== src/AsyncServer/LogicSystem/Callbacks.antt =====
-- What the logic thread does with a node, by its message id.
use boost_learn.Base.{ℕ, List, [], ◌∷◌, ◌++◌, none, some, take, ◌≡◌, ◌≢◌, sym, ◌∙◌, ne→==, ◌⊎◌}
use boost_learn.Platform.{to_short}
use boost_learn.Json.{Json, id_key, data_key}
use boost_learn.Json.Answer.{IsRequest, answer_request}
use boost_learn.AsyncServer.Const.{msg_hello_world}
use boost_learn.AsyncServer.LogicSystem.{
  LogicNode, received_prefix, dispatch, register_callback, hello_world_callback, find_callback,
  call_back,
}

-- The chars that the node's callback is given.
abbrev pub msg_data : LogicNode → List ℕ
msg_data node = take node.recvnode.node.cur_len node.recvnode.node.chars

module _ (json : Json) where
  dispatch-hello :
      (node : LogicNode)
      → node.recvnode.msg_id ≡ msg_hello_world
      → dispatch json node ≡ hello_world_callback json node.session msg_hello_world (msg_data node)
  unfolding dispatch register_callback find_callback call_back
  dispatch-hello node e = rw e

  -- A node with the id MSG_HELLO_WORLD whose data is a JSON object with an int id and a string data
  -- is answered to its session with one message: the object with "server has received, msg data is "
  -- put before its data, under the id of the object cut to a short.
  pub dispatch_request :
      (node : LogicNode) (i : ℕ) (t : List ℕ)
      → node.recvnode.msg_id ≡ msg_hello_world
      → IsRequest json (json.parse (msg_data node)) i t
      → (u : json.Value) × (json.assign (json.parse (msg_data node)) data_key (received_prefix ++ t)
          ≡ some u)
        × (dispatch json node
            ≡ some (
                record { session = node.session; msg = json.to_styled_string u; msgid = to_short i }
                ∷ []))
  unfolding hello_world_callback
  dispatch_request node i t e q =
      let (u, a, h) = answer_request json received_prefix (msg_data node) i t q in
      (u, a, dispatch-hello node e ∙ rw h)

  -- A node with another id is dropped without an answer.
  pub dispatch_unknown :
      (node : LogicNode) → node.recvnode.msg_id ≢ msg_hello_world → dispatch json node ≡ some []
  unfolding dispatch register_callback find_callback call_back
  dispatch_unknown node ne =
      let other = ne→== msg_hello_world node.recvnode.msg_id (λ e. ne (sym e)) in rw other

  -- `root["id"].asInt()` throws: the data is no object, so that the look-up throws, or what is found
  -- under "id" cannot be read as an int. (Where there is none, null is found, and read as 0.)
  abbrev pub IdThrows : LogicNode → Type 0
  IdThrows node =
      let root = json.parse (msg_data node) in
      (json.member root id_key ≡ none)
      ⊎ ((found : json.Value × json.Value) × (json.member root id_key ≡ some found)
          × (json.as_int found.1 ≡ none))
