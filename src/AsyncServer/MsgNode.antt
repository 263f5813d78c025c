-- ===== src/AsyncServer/MsgNode.antt =====
-- AsyncServer/MsgNode.h and MsgNode.cpp: the buffers of a session. `new char` of a negative size
-- throws or leaves nothing to write the terminator to, and both are a fault, as is a `memcpy` out
-- of bounds.
pub mod Contents
pub mod Encoding
use boost_learn.Base.{ℕ, ◌+◌, List, [], ◌∷◌, Option, none, some, if◌then◌else◌, set}
use boost_learn.Memory.{memcpy, memset_zero}
use boost_learn.Platform.{Platform, to_short, is_negative}
use boost_learn.AsyncServer.Const.{head_total_len, head_id_len, head_data_len}

-- A pointer to the chars is the array that it points to; no two nodes share one. `cur_len` stays
-- within 0 and `max_len`, so that it is its own `size_t`.
pub record MsgNode : Type 0 where
  pub cur_len : ℕ
  pub max_len : ℕ
  pub chars : List ℕ

-- RecvNode and SendNode add an id.
pub record RecvNode : Type 0 where
  pub node : MsgNode
  pub msg_id : ℕ

pub record SendNode : Type 0 where
  pub node : MsgNode
  pub msg_id : ℕ

infixl 5 ◌>>=◌
abbrev pub ◌>>=◌ {ℓ κ} : {A : Type ℓ} {B : Type κ} → Option A → (A → Option B) → Option B
none >>= f = none
some a >>= f = f a

-- MsgNode::Clear
unfoldable pub clear : MsgNode → MsgNode
clear n = record n { chars = memset_zero n.chars n.max_len; cur_len = 0 }

module _ (p : Platform) where
  -- MsgNode::MsgNode
  unfoldable pub new_node : ℕ → Option MsgNode
  new_node max_len =
      if is_negative max_len
      then none
      else some (record {
        cur_len = 0;
        max_len = max_len;
        chars = set (p.new_char (max_len + 1)) max_len 0;
      })

  -- RecvNode::RecvNode
  unfoldable pub recv_node : ℕ → ℕ → Option RecvNode
  unfolding new_node
  recv_node max_len msg_id = do
    node ← new_node max_len
    some (record { node = node; msg_id = msg_id })

  -- the two bytes that `memcpy` takes from a `short`
  abbrev pub bytes_of_short : ℕ → List ℕ
  bytes_of_short v = let (low, high) = p.store_short v in low ∷ high ∷ []

  -- The body of SendNode::SendNode, on the node that MsgNode has made.
  unfoldable pub fill_node : MsgNode → List ℕ → ℕ → ℕ → Option SendNode
  fill_node node msg msg_len msg_id = do
    let msg_id_host = p.host_to_network_short msg_id
    with_id ← memcpy node.chars 0 (bytes_of_short msg_id_host) 0 head_id_len
    let msg_len_host = p.host_to_network_short (to_short msg_len)
    with_len ← memcpy with_id head_id_len (bytes_of_short msg_len_host) 0 head_data_len
    filled ← memcpy with_len head_total_len msg 0 msg_len
    some (record { node = record node { chars = filled }; msg_id = msg_id })

  -- SendNode::SendNode
  unfoldable pub send_node : List ℕ → ℕ → ℕ → Option SendNode
  unfolding new_node fill_node
  send_node msg msg_len msg_id = do
    node ← new_node (to_short (msg_len + head_total_len))
    fill_node node msg msg_len msg_id
