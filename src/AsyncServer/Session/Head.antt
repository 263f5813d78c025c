-- ===== src/AsyncServer/Session/Head.antt =====
-- `read_head`, round by round: the bytes of a head are still too few, or it is complete.
use boost_learn.Base.{
  ℕ, ◌+◌, ◌-◌, ◌≤◌, ◌<◌, ◌≡◌, sym, ap, ◌∙◌, List, [], ◌∷◌, ◌++◌, arith, lt→ltb, le→ltb, length,
  window, window_split, length-window, length-append, append_assoc,
}
use boost_learn.Memory.{overwrite, memcpy-overwrite, length-overwrite, memset_zero}
use boost_learn.Platform.{Platform}
use boost_learn.AsyncServer.MsgNode.Contents.{contents, length-contents}
use boost_learn.AsyncServer.Session.{
  Session, async_read_some, leave, accept_head, round, wait_for_more,
}
use boost_learn.AsyncServer.Session.Append.{grown, append-eq}
use boost_learn.AsyncServer.Session.View.{IsReadingHead}

-- Too few bytes for a head: they are kept.
module _ (p : Platform) (s : Session) (c n : ℕ) (v : IsReadingHead s)
    (few : n + s.recv_head_node.cur_len < 4) (has : c + n ≤ length s.buffer) where
  abbrev pub kept : Session
  kept = record s {
    recv_head_node = grown s.recv_head_node s.buffer c n;
    buffer = memset_zero s.buffer 2048;
  }

  pub round_few : round p s c n ≡ leave kept (async_read_some ∷ [])
  unfolding round wait_for_more
  round_few = rw (
    v.at_head,
    lt→ltb _ _ few,
    append-eq s.recv_head_node s.buffer c n v.head_valid (omega (arith, v.head_size)) has,
  )

-- The head is complete: its node is filled up, and its bytes are the first four.
module _ (p : Platform) (s : Session) (c n : ℕ) (v : IsReadingHead s)
    (enough : 4 ≤ n + s.recv_head_node.cur_len) (has : c + n ≤ length s.buffer) where
  abbrev pub remind : ℕ
  remind = 4 - s.recv_head_node.cur_len

  abbrev pub headed : Session
  headed = record s {
    recv_head_node = record s.recv_head_node {
      chars = overwrite s.recv_head_node.chars s.recv_head_node.cur_len s.buffer c remind;
    };
  }

  pub round_head : round p s c n ≡ accept_head p headed (c + remind) (n - remind)
  unfolding round
  round_head = rw (
    v.at_head,
    le→ltb _ _ enough,
    memcpy-overwrite s.recv_head_node.chars s.recv_head_node.cur_len s.buffer c remind
        (omega (arith, v)) (omega (arith, v)),
  )

  pub headed-IsReadingHead : IsReadingHead headed
  headed-IsReadingHead = record {
    at_head = v.at_head;
    head_valid = omega (
      arith,
      v,
      length-overwrite s.recv_head_node.chars s.recv_head_node.cur_len s.buffer c remind
          (omega (arith, v)) (omega (arith, v)),
    );
    head_size = v.head_size;
    head_open = v.head_open;
    array = v.array;
  }

  abbrev pub front : List ℕ
  front = contents s.recv_head_node ++ window s.buffer c remind

  pub length-front : length front ≡ 4
  length-front = omega (
    arith,
    v,
    length-append (contents s.recv_head_node) (window s.buffer c remind),
    length-contents v.head_valid,
    length-window s.buffer c remind (omega (arith, v)),
  )

  pub front_split :
      contents s.recv_head_node ++ window s.buffer c n
      ≡ front ++ window s.buffer (c + remind) (n - remind)
  front_split =
      ap (λ t. contents s.recv_head_node ++ t) (window_split remind n c s.buffer (omega (arith, v)))
      ∙ sym (append_assoc (contents s.recv_head_node) (window s.buffer c remind) _)
