-- ===== src/CoroutineService/LogicSystem/Callbacks.antt =====
-- What the logic thread answers to a message that the coroutine has posted.
use boost_learn.Base.{ℕ, List, [], ◌∷◌, ◌++◌, some, ◌≡◌, ap, ◌∙◌}
use boost_learn.Platform.{to_short}
use boost_learn.Json.{Json, data_key}
use boost_learn.Json.Answer.{IsRequest, answer_request}
use boost_learn.AsyncServer.LogicSystem.{LogicNode, find_callback}
use boost_learn.AsyncServer.Session.Decode.{Message}
use boost_learn.CoroutineService.Const.{msg_helloworld}
use boost_learn.CoroutineService.CSession.Round.{view}
use boost_learn.CoroutineService.LogicSystem.{
  received_prefix, dispatch, register_callback, hello_world_callback, call_back,
}

module _ (json : Json) where
  dispatch-hello :
      (node : LogicNode) (m : Message)
      → view node.recvnode ≡ m
      → m.msg_id ≡ msg_helloworld
      → dispatch json node ≡ hello_world_callback json node.session msg_helloworld m.body
  unfolding dispatch register_callback find_callback call_back
  dispatch-hello node m e h =
      let id : node.recvnode.msg_id ≡ msg_helloworld = ap (λ t. t.msg_id) e ∙ h in
      rw id (ap (λ t. hello_world_callback json node.session msg_helloworld t.body) e)

  -- A posted message with the id MSG_HELLOWORLD whose whole body is a JSON object with an int id and
  -- a string data is answered to its session with one message: the object with "server is received
  -- msg ,msg data is " put before its data, under the id of the object cut to a short.
  pub dispatch_message :
      (node : LogicNode) (m : Message) (i : ℕ) (t : List ℕ)
      → view node.recvnode ≡ m
      → m.msg_id ≡ msg_helloworld
      → IsRequest json (json.parse m.body) i t
      → (u : json.Value) × (json.assign (json.parse m.body) data_key (received_prefix ++ t)
          ≡ some u)
        × (dispatch json node
            ≡ some (
                record { session = node.session; msg = json.to_styled_string u; msgid = to_short i }
                ∷ []))
  unfolding hello_world_callback
  dispatch_message node m i t e h q =
      let (u, a, answered) = answer_request json received_prefix m.body i t q in
      (u, a, dispatch-hello node m e h ∙ rw answered)
