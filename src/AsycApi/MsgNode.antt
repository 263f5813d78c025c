-- ===== src/AsycApi/MsgNode.antt =====
-- AsycApi/Session.h: RECVSIZE and the buffers. A copy out of bounds is `none`. An `int` length is
-- taken to be a length that fits.
use boost_learn.Base.{ℕ, List, Option, none, some, length}
use boost_learn.Memory.{memcpy}
use boost_learn.Platform.{Platform}

infixl 5 ◌>>=◌
abbrev pub ◌>>=◌ {ℓ κ} : {A : Type ℓ} {B : Type κ} → Option A → (A → Option B) → Option B
none >>= f = none
some a >>= f = f a

abbrev pub recvsize : ℕ
recvsize = 1024

pub record MsgNode : Type 0 where
  pub msg : List ℕ
  pub total_len : ℕ
  pub cur_len : ℕ

module _ (p : Platform) where
  -- MsgNode(const char* msg, int total_len)
  unfoldable pub new_send_node : List ℕ → Option MsgNode
  new_send_node msg = do
    chars ← memcpy (p.new_char recvsize) 0 msg 0 (length msg)
    some (record { msg = chars; total_len = length msg; cur_len = 0 })

  -- MsgNode(int total_len)
  unfoldable pub new_recv_node : ℕ → MsgNode
  new_recv_node total_len = record {
    msg = p.new_char total_len;
    total_len = total_len;
    cur_len = 0;
  }
