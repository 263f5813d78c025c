-- ===== src/AsyncServer/LogicSystem/Tests.antt =====
-- The theorems on the logic thread at concrete inputs.
use boost_learn.Base.{ℕ, ◌≡◌, refl, List, [], ◌∷◌, true, false, arith, length}
use boost_learn.Json.Objects.{json}
use boost_learn.Json.Answer.{IsRequest}
use boost_learn.WorkQueue.{
  Logic, Reach, begin, next, posts, wakes, works, running, deal_msg, post, start, deal_round,
}
use boost_learn.WorkQueue.Order.{
  history, posted, history-Reach, served, AreReplied, deal_msg-serves,
}
use boost_learn.WorkQueue.Wakeup.{IsAwaited, Reach-IsAwaited}
use boost_learn.AsyncServer.LogicSystem.{LogicNode, Reply, dispatch}
use boost_learn.AsyncServer.LogicSystem.Callbacks.{msg_data, dispatch_request, dispatch_unknown}

-- A node with the given id and chars.
abbrev node_of : ℕ → List ℕ → LogicNode
node_of msg_id chars = record {
  recvnode = record {
    node = record { cur_len = length chars; max_len = length chars; chars = chars };
    msg_id = msg_id;
  };
  session = 7;
}

-- id 42, data "hi"
abbrev request : LogicNode
request = node_of 1001 (42 ∷ 104 ∷ 105 ∷ [])

abbrev unknown : LogicNode
unknown = node_of 9 []

request-IsRequest : IsRequest json (json.parse (msg_data request)) 42 (104 ∷ 105 ∷ [])
request-IsRequest = record {
  id_member = _;
  data_member = _;
  has_id = refl;
  has_data = refl;
  id_int = refl;
  data_string = refl;
}

-- Both are posted while the thread starts; it wakes and serves the first.
abbrev started : Logic LogicNode Reply
started = start

abbrev both_posted : Logic LogicNode Reply
both_posted = post (post started request) unknown

abbrev waiting_two : Logic LogicNode Reply
waiting_two = record both_posted { worker = running }

abbrev first_served : Logic LogicNode Reply
first_served = deal_round (dispatch json) waiting_two waiting_two.msg_que

abbrev two_posts : Reach (dispatch json) first_served
unfolding start post
two_posts =
    next (next (next (next begin (posts request tt)) (posts unknown tt)) (wakes refl)) (works refl)

history-Reach_example :
    (history first_served ≡ posted (dispatch json) two_posts)
    × AreReplied (dispatch json) first_served
history-Reach_example = history-Reach (dispatch json) two_posts

Reach-IsAwaited_example : IsAwaited first_served
Reach-IsAwaited_example = Reach-IsAwaited (dispatch json) two_posts

abbrev two_waiting : Logic LogicNode Reply
two_waiting = record {
  msg_que = request ∷ unknown ∷ [];
  b_stop = true;
  worker = running;
  handled = [];
  replies = [];
}

deal_msg-serves_example :
    deal_msg (dispatch json) 3 two_waiting ≡ served (dispatch json) two_waiting two_waiting.msg_que
deal_msg-serves_example =
    let answered = dispatch_request json request 42 (104 ∷ 105 ∷ []) refl request-IsRequest in
    deal_msg-serves (dispatch json) two_waiting 3 refl
      ((_, answered.2), ((_, dispatch_unknown json unknown (λ e. absurd (omega arith))), tt))
      (omega arith)

-- The data is a number, and not an object.
abbrev bare : LogicNode
bare = node_of 1001 (5 ∷ [])

-- The request is answered, and then the number ends the thread.
abbrev bare_waiting : Logic LogicNode Reply
bare_waiting = record two_waiting { msg_que = request ∷ bare ∷ unknown ∷ []; b_stop = false }
