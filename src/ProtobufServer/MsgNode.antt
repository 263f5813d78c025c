-- ===== src/ProtobufServer/MsgNode.antt =====
-- AsyncServer_useProtobuf/Session.h: the constants and the buffers. The class of the nodes has the
-- fields of AsyncServer/MsgNode.h, with lengths that are `int`, and the same Clear.
-- A length that is negative as a `short` keeps its pattern. In a comparison with a `size_t` it is above
-- every number of bytes that a read brings, and so is the pattern. The first two bytes of an `int` are those
-- of the `short`, as on the x86 targets of the project file.
pub mod Encoding
use boost_learn.Base.{ℕ, ◌+◌, List, Option, none, some, if◌then◌else◌, set, length, ◌==◌}
use boost_learn.Memory.{memcpy}
use boost_learn.Platform.{Platform, is_negative}
use boost_learn.AsyncServer.MsgNode.{MsgNode, bytes_of_short, ◌>>=◌}

abbrev pub max_length : ℕ
max_length = 2048

abbrev pub head_length : ℕ
head_length = 2

abbrev pub max_sendque : ℕ
max_sendque = 1000

module _ (p : Platform) where
  -- new char[max_len + 1] for a negative length: no char for -1, and below that it throws.
  abbrev negative_node : ℕ → Option MsgNode
  negative_node max_len =
      if max_len == 65535
      then some (record { cur_len = 0; max_len = max_len; chars = p.new_char 0 })
      else none

  -- MsgNode(short max_len)
  unfoldable pub recv_node : ℕ → Option MsgNode
  recv_node max_len =
      if is_negative max_len
      then negative_node max_len
      else some (record { cur_len = 0; max_len = max_len; chars = p.new_char (max_len + 1) })

  -- The body of the other constructor.
  unfoldable pub fill_node : List ℕ → ℕ → Option MsgNode
  fill_node msg max_len = do
    let size = max_len + head_length
    let max_len_network = p.host_to_network_short max_len
    with_len ← memcpy (p.new_char (size + 1)) 0 (bytes_of_short p max_len_network) 0 head_length
    filled ← memcpy with_len head_length msg 0 max_len
    some (record { cur_len = 0; max_len = size; chars = set filled size 0 })

  -- MsgNode(const char* msg, short max_len). With a negative length `new char` throws, or the copy of the
  -- message is one of almost 2 ^ 64 bytes.
  unfoldable pub send_node : List ℕ → ℕ → Option MsgNode
  unfolding fill_node
  send_node msg max_len = if is_negative max_len then none else fill_node msg max_len
