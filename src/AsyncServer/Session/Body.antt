-- ===== src/AsyncServer/Session/Body.antt =====
-- `read_message`, round by round: part of the body, all of it, or more than that has come.
use boost_learn.Base.{
  ℕ, ◌+◌, ◌-◌, ◌≤◌, ◌<◌, ◌≡◌, refl, ap, ◌∙◌, [], ◌∷◌, ◌++◌, true, false, some, arith, lt→ltb,
  le→ltb, le→leb, lt→leb, length, window,
}
use boost_learn.Memory.{memset_zero}
use boost_learn.AsyncServer.MsgNode.{RecvNode, clear}
use boost_learn.AsyncServer.MsgNode.Contents.{
  IsValid, contents, contents_nil, terminated, contents-terminated, clear-IsValid,
}
use boost_learn.AsyncServer.Session.{
  Session, async_read_some, post_msg_to_que, leave, again, read_message, wait_for_more, next_round,
}
use boost_learn.AsyncServer.Session.Append.{grown, append-eq, cur_len-grown, contents-grown}
use boost_learn.AsyncServer.Session.View.{IsReadingHead}

-- What a session holds behind the head of a message.
abbrev pub part : Session → RecvNode → ℕ → ℕ → RecvNode
part s r c n = record r { node = grown r.node s.buffer c n }

abbrev pub whole : Session → RecvNode → ℕ → RecvNode
whole s r c = record r { node = terminated (grown r.node s.buffer c r.node.max_len) }

abbrev pub between : Session → RecvNode → ℕ → Session
between s r c = record s {
  recv_msg_node = some (whole s r c);
  b_head_parse = false;
  recv_head_node = clear s.recv_head_node;
}

-- The three ways to go on with the body of a message, for a node that has just been made.
module _ (s : Session) (r : RecvNode) (c n : ℕ) (vr : IsValid r.node) (z : r.node.cur_len ≡ 0)
    (has : c + n ≤ length s.buffer) where
  pub read_message_few :
      n < r.node.max_len
      → read_message s r r.node.max_len c n
        ≡ leave
            (record s {
              recv_msg_node = some (part s r c n);
              b_head_parse = true;
              buffer = memset_zero s.buffer 2048;
            })
            (async_read_some ∷ [])
  unfolding read_message wait_for_more
  read_message_few h = rw (lt→ltb _ _ h, append-eq r.node s.buffer c n vr (omega arith) has)

  pub read_message_end :
      n ≡ r.node.max_len
      → read_message s r r.node.max_len c n
        ≡ leave
            (record (between s r c) { buffer = memset_zero s.buffer 2048 })
            (post_msg_to_que (whole s r c) ∷ async_read_some ∷ [])
  unfolding read_message wait_for_more next_round
  read_message_end h = rw (
    le→ltb n r.node.max_len (omega arith),
    append-eq r.node s.buffer c r.node.max_len vr (omega arith) (omega arith),
    le→leb (n - r.node.max_len) 0 (omega arith),
  )

  pub read_message_again :
      r.node.max_len < n
      → read_message s r r.node.max_len c n
        ≡ again
            (between s r c)
            (c + r.node.max_len)
            (n - r.node.max_len)
            (post_msg_to_que (whole s r c) ∷ [])
  unfolding read_message next_round
  read_message_again h = rw (
    le→ltb n r.node.max_len (omega arith),
    append-eq r.node s.buffer c r.node.max_len vr (omega arith) (omega arith),
    lt→leb (n - r.node.max_len) 0 (omega arith),
  )

  pub contents-part : n ≤ r.node.max_len → contents (part s r c n).node ≡ window s.buffer c n
  contents-part h =
      contents-grown r.node s.buffer c n vr (omega arith) has
      ∙ ap (λ t. t ++ window s.buffer c n) (contents_nil r.node z)

  pub contents-whole :
      r.node.max_len ≤ n → contents (whole s r c).node ≡ window s.buffer c r.node.max_len
  contents-whole h =
      contents-terminated (grown r.node s.buffer c r.node.max_len) (
        omega
          (arith, cur_len-grown r.node s.buffer c r.node.max_len vr (omega arith) (omega arith)))
      ∙ (contents-grown r.node s.buffer c r.node.max_len vr (omega arith) (omega arith)
          ∙ ap (λ t. t ++ window s.buffer c r.node.max_len) (contents_nil r.node z))

pub between-IsReadingHead :
    (s : Session) (r : RecvNode) (c : ℕ) → IsReadingHead s → IsReadingHead (between s r c)
between-IsReadingHead s r c v =
    let k = clear-IsValid v.head_valid in
    record {
      at_head = refl;
      head_valid = k.0;
      head_size = k.2 ∙ v.head_size;
      head_open = omega (arith, k.1);
      array = v.array;
    }
