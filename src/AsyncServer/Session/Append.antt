-- ===== src/AsyncServer/Session/Append.antt =====
-- `append`: a copy into a node that has the room extends what the node holds.
use boost_learn.Base.{ℕ, ◌+◌, ◌≤◌, ◌≡◌, ap, ◌∙◌, List, ◌++◌, some, arith, take, length, window}
use boost_learn.Memory.{overwrite, memcpy-overwrite, length-overwrite, take-overwrite}
use boost_learn.Platform.{to_short}
use boost_learn.AsyncServer.MsgNode.{MsgNode}
use boost_learn.AsyncServer.MsgNode.Contents.{IsValid, contents}
use boost_learn.AsyncServer.Session.{append}

module _ (node : MsgNode) (buffer : List ℕ) (from n : ℕ) where
  -- The node that `append` leaves.
  abbrev pub grown : MsgNode
  grown = record node {
    chars = overwrite node.chars node.cur_len buffer from n;
    cur_len = to_short (node.cur_len + n);
  }

  module _ (v : IsValid node) (fits : node.cur_len + n ≤ node.max_len)
      (has : from + n ≤ length buffer) where
    pub append-eq : append node buffer from n ≡ some grown
    unfolding append
    append-eq =
        rw (
          append,
          memcpy-overwrite node.chars node.cur_len buffer from n (omega (arith, v.room)) has,
        )

    pub cur_len-grown : grown.cur_len ≡ node.cur_len + n
    cur_len-grown = omega (arith, v.short)

    pub grown-IsValid : IsValid grown
    grown-IsValid = omega (
      arith,
      v.room,
      v.short,
      length-overwrite node.chars node.cur_len buffer from n (omega (arith, v.room)) has,
    )

    pub contents-grown : contents grown ≡ contents node ++ window buffer from n
    contents-grown =
        ap (λ k. take k grown.chars) cur_len-grown
        ∙ take-overwrite node.chars node.cur_len buffer from n (omega (arith, v.room)) has
