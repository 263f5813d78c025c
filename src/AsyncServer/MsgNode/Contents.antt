-- ===== src/AsyncServer/MsgNode/Contents.antt =====
-- What a node holds of a message, and how copying into it extends that.
use boost_learn.Base.{
  ℕ, ◌+◌, ◌≤◌, ◌<◌, ◌≡◌, sym, ap, ◌∙◌, List, [], some, arith, length, take, set, length-set,
  length-take, take-set, lt→leb,
}
use boost_learn.Memory.{length-memset_zero}
use boost_learn.Platform.{Platform}
use boost_learn.AsyncServer.MsgNode.{MsgNode, new_node, clear}

-- One byte more than `max_len`, for the terminator.
pub record IsValid (node : MsgNode) : Type 0 where
  pub room : length node.chars ≡ node.max_len + 1
  pub within : node.cur_len ≤ node.max_len
  pub short : node.max_len < 32768

abbrev pub contents : MsgNode → List ℕ
contents node = take node.cur_len node.chars

pub length-contents : {node : MsgNode} → IsValid node → length (contents node) ≡ node.cur_len
length-contents {node} v = omega (arith, length-take node.cur_len node.chars)

-- The node that the constructor makes.
abbrev pub fresh_node : Platform → ℕ → MsgNode
fresh_node p m = record { cur_len = 0; max_len = m; chars = set (p.new_char (m + 1)) m 0 }

pub new_node-eq : (p : Platform) (m : ℕ) → m < 32768 → new_node p m ≡ some (fresh_node p m)
unfolding new_node
new_node-eq p m h = rw (lt→leb 32768 m h)

pub fresh_node-IsValid : (p : Platform) (m : ℕ) → m < 32768 → IsValid (fresh_node p m)
fresh_node-IsValid p m h =
    omega (arith, length-set (p.new_char (m + 1)) m 0, p.length-new_char (m + 1))

pub clear-IsValid :
    {node : MsgNode}
    → IsValid node
    → IsValid (clear node) × ((clear node).cur_len ≡ 0) × ((clear node).max_len ≡ node.max_len)
unfolding clear
clear-IsValid {node} v = omega (arith, length-memset_zero node.chars node.max_len)

pub contents_nil : (node : MsgNode) → node.cur_len ≡ 0 → contents node ≡ []
contents_nil node e = ap (λ k. take k node.chars) e

-- `_data[_max_len] = '\0'` on a full node leaves what it holds.
abbrev pub terminated : MsgNode → MsgNode
terminated node = record node { chars = set node.chars node.max_len 0 }

pub terminated-IsValid : {node : MsgNode} → IsValid node → IsValid (terminated node)
terminated-IsValid {node} v = omega (arith, v, length-set node.chars node.max_len 0)

pub contents-terminated :
    (node : MsgNode) → node.cur_len ≡ node.max_len → contents (terminated node) ≡ contents node
contents-terminated node e =
    ap (λ k. take k (set node.chars node.max_len 0)) e
    ∙ (take-set node.chars node.max_len 0 ∙ sym (ap (λ k. take k node.chars) e))
