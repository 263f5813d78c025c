-- ===== src/ProtobufServer/Session/Split.antt =====
-- A message whose body comes in two reads, and what the session does with the reads behind it.
use boost_learn.Base.{
  ℕ, zero, suc, ◌+◌, ◌-◌, ◌≤◌, ◌<◌, ◌≡◌, refl, sym, ap, ◌∙◌, List, [], ◌∷◌, ◌++◌, Bool, false, some,
  inl, inr, arith, length, take, ltb, lt→ltb, le→ltb, Bool-cases, ltb→le,
}
use boost_learn.Memory.{overwrite, memcpy-overwrite, length-overwrite, take-overwrite, memset_zero}
use boost_learn.Platform.{Platform}
use boost_learn.AsyncServer.MsgNode.{MsgNode}
use boost_learn.ProtobufServer.Message.{MsgData}
use boost_learn.ProtobufServer.MsgNode.Encoding.{sent, wire, wire-sent, frame}
use boost_learn.ProtobufServer.Session.{
  Session, Effect, async_read_some, send, append, next_round, read_rest, round, read_loop,
  handle_read, follow, returned, spinning, after, or_crash,
}
use boost_learn.ProtobufServer.Session.Frames.{follow-next_more, follow-next_end}
use boost_learn.ProtobufServer.Session.Whole.{first_write}
use boost_learn.ProtobufServer.Session.Body.{at_body, IsBody, text_of, short_text, send-body}

-- The node after `n` more chars of its body.
abbrev pub grown : MsgNode → List ℕ → ℕ → ℕ → MsgNode
grown node buffer c n = record node {
  chars = overwrite node.chars node.cur_len buffer c n;
  cur_len = node.cur_len + n;
}

module _ (node : MsgNode) (buffer : List ℕ) (c n : ℕ) (v : IsBody node)
    (part : node.cur_len + n ≤ node.max_len) (has : c + n ≤ length buffer) where
  append-grown : append node buffer c n ≡ some (grown node buffer c n)
  unfolding append
  append-grown = rw (
    append,
    memcpy-overwrite node.chars node.cur_len buffer c n (omega (arith, part, v.room)) has,
  )

  pub grown-IsBody : IsBody (grown node buffer c n)
  grown-IsBody = record {
    within = part;
    fits = v.fits;
    room =
        length-overwrite node.chars node.cur_len buffer c n (omega (arith, part, v.room)) has
        ∙ v.room;
  }

module _ (proto : MsgData) (p : Platform) (uuid : ℕ) (head : MsgNode) where
  round-rest :
      (node : MsgNode) (buffer : List ℕ) (q : List MsgNode) (pending : Bool) (c n k : ℕ)
      → IsBody node
      → node.cur_len + k ≡ node.max_len
      → k ≤ n
      → c + n ≤ length buffer
      → round proto p (at_body uuid head node buffer q pending) c n
        ≡ or_crash
            (send p
              (at_body uuid head (grown node buffer c k) buffer q pending)
              (grown node buffer c k).chars
              node.max_len)
            (λ sent. next_round sent.0 (c + k) (n - k) sent.1)
  unfolding round read_rest
  round-rest node buffer q pending c n k v rest more has =
      let missing : node.max_len - node.cur_len ≡ k = omega (arith, rest) in
      rw (
        missing,
        le→ltb n k more,
        append-grown node buffer c k v (omega (arith, rest)) (omega (arith, has, more)),
      )

  -- Sending a body that is complete leaves the session with it.
  send-body_some :
      (node : MsgNode) (buffer : List ℕ) (q : List MsgNode) (pending : Bool) (v : IsBody node)
      → (q' : List MsgNode) × (pending' : Bool) × (es : List Effect) × (send p
            (at_body uuid head node buffer q pending)
            node.chars
            node.max_len
          ≡ some (at_body uuid head node buffer q' pending', es))
  unfolding send
  send-body_some node buffer q pending v = elim (Bool-cases (ltb 1000 (length q))) [
    | inl over ↦ (q, false, [], rw over)
    | inr under ↦ (
      q ++ sent p (text_of node) (short_text node v) ∷ [],
      ltb 0 (length q),
      first_write q (sent p (text_of node) (short_text node v)),
      send-body p uuid head node buffer q pending v (ltb→le 1000 (length q) under),
    )
  ]

  pub full_node_spins :
      (fuel : ℕ) (node : MsgNode) (buffer : List ℕ) (q : List MsgNode) (pending : Bool) (c n : ℕ)
      → IsBody node
      → node.cur_len ≡ node.max_len
      → 0 < n
      → c + n ≤ length buffer
      → (s : Session) × (es : List Effect) × (read_loop proto p fuel
            (at_body uuid head node buffer q pending)
            c
            n
          ≡ spinning s es)
  unfolding read_loop
  full_node_spins zero node buffer q pending c n v full some_left has =
      (at_body uuid head node buffer q pending, [], refl)
  full_node_spins (suc fuel) node buffer q pending c n v full some_left has =
      let g = grown node buffer c 0 in
      let w = grown-IsBody node buffer c 0 v (omega (arith, full)) (omega (arith, has)) in
      let sends = send-body_some g buffer q pending w in
      let ih =
        full_node_spins fuel g buffer sends.0 sends.1 (c + 0) (n - 0) w (omega (arith, full))
          (omega (arith, some_left)) (omega (arith, has)) in
      let later = at_body uuid head g buffer sends.0 sends.1 in
      (
        ih.0,
        sends.2 ++ ih.1,
        rw
            (
              lt→ltb 0 n some_left,
              round-rest node buffer q pending c n 0 v (omega (arith, full)) (omega arith) has,
              sends.3,
            )
            (follow-next_more (read_loop proto p fuel) later (c + 0) (n - 0) sends.2
                (omega (arith, some_left))
              ∙ ap (after sends.2) ih.2),
      )

text-grown :
    (node : MsgNode) (buffer : List ℕ) (n : ℕ)
    → IsBody node
    → node.cur_len + n ≡ node.max_len
    → n ≤ length buffer
    → text_of (grown node buffer 0 n) ≡ take node.cur_len node.chars ++ take n buffer
text-grown node buffer n v rest has =
    ap (λ k. take k (overwrite node.chars node.cur_len buffer 0 n)) (sym rest)
    ∙ take-overwrite node.chars node.cur_len buffer 0 n (omega (arith, rest, v.room))
        (omega (arith, has))

-- A session that has parsed a head and has the first part of the body, at most 2048 bytes in all,
-- reads exactly the rest of it, with at most 1000 nodes in its queue. A call with fuel returns: what
-- is put into the queue has the length and the text of the body itself on the wire, not a reply; one
-- read is started, and the session still awaits the body that is complete. So each later read of one
-- byte or more, whatever the queue has become, does not return, however much fuel it has.
pub body_in_two_reads :
    (proto : MsgData) (p : Platform) (uuid : ℕ) (head node : MsgNode) (buffer later : List ℕ)
    (q q' : List MsgNode) (pending pending' : Bool) (n n' fuel fuel' : ℕ)
    → IsBody node
    → node.cur_len + n ≡ node.max_len
    → 0 < n
    → n ≤ length buffer
    → length q ≤ 1000
    → 0 < n'
    → n' ≤ length later
    → (full r : MsgNode) × (handle_read proto p
          (suc fuel)
          (at_body uuid head node buffer q pending)
          false
          n
        ≡ returned
            (at_body uuid head full (memset_zero buffer 2048) (q ++ r ∷ []) (ltb 0 (length q)))
            (first_write q r ++ async_read_some ∷ []))
      × (wire r ≡ frame (take node.cur_len node.chars ++ take n buffer))
      × ((s : Session) × (es : List Effect) × (handle_read proto p fuel'
              (at_body uuid head full later q' pending')
              false
              n'
            ≡ spinning s es))
unfolding handle_read read_loop
body_in_two_reads proto p uuid head node buffer later q q' pending pending' n n' fuel fuel' v rest
      some_come has room some_later later_has =
    let full = grown node buffer 0 n in
    let w = grown-IsBody node buffer 0 n v (omega (arith, rest)) (omega (arith, has)) in
    let r = sent p (text_of full) (short_text full w) in
    let left : n - n ≡ 0 = omega arith in
    (
      full,
      r,
      rw
          (
            lt→ltb 0 n some_come,
            round-rest proto p uuid head node buffer q pending 0 n n v rest (omega arith)
                (omega (arith, has)),
            send-body p uuid head full buffer q pending w room,
          )
          (ap
              (λ k. follow (read_loop proto p fuel) (
                next_round (at_body uuid head full buffer (q ++ r ∷ []) (ltb 0 (length q))) (0 + n)
                  k (first_write q r)))
              left
            ∙ follow-next_end (read_loop proto p fuel)
                (at_body uuid head full buffer (q ++ r ∷ []) (ltb 0 (length q))) (0 + n)
                (first_write q r)),
      wire-sent p (text_of full) (short_text full w)
          ∙ ap frame (text-grown node buffer n v rest has),
      full_node_spins proto p uuid head fuel' full later q' pending' 0 n' w rest some_later
          (omega (arith, later_has)),
    )
