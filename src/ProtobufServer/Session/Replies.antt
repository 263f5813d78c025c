-- ===== src/ProtobufServer/Session/Replies.antt =====
-- A read that brings whole messages.
use boost_learn.Base.{
  ℕ, zero, suc, ◌+◌, ◌-◌, ◌≤◌, ◌<◌, ◌≡◌, sym, ap, ap₂, ◌∙◌, List, [], ◌∷◌, ◌++◌, Bool, false,
  Option, none, some, arith, length, map, window, ltb, lt→ltb, length-append, append_assoc, All,
}
use boost_learn.Memory.{length-overwrite, memset_zero, length-memset_zero}
use boost_learn.Platform.{Platform}
use boost_learn.AsyncServer.MsgNode.{MsgNode}
use boost_learn.AsyncServer.MsgNode.Encoding.{network_bytes}
use boost_learn.ProtobufServer.Message.{MsgData, reply}
use boost_learn.ProtobufServer.MsgNode.Encoding.{frame, wire, sent, wire-sent}
use boost_learn.ProtobufServer.Session.{
  Session, Effect, async_read_some, next_round, round, read_loop, handle_read, follow, Outcome,
  returned, after,
}
use boost_learn.ProtobufServer.Session.Whole.{
  at_head, first_write, window-front, head_chars, read_head-whole, accept_head-whole, answer-eq,
  ended_node,
}
use boost_learn.ProtobufServer.Session.Frames.{
  frames, IsServed, writes, first_write-writes, writes-behind, window-frame_positive,
  follow-next_end, follow-next_more,
}

module _ (proto : MsgData) (p : Platform) (uuid : ℕ) (buffer : List ℕ) where
  -- The loop ends between messages, with the answers at the end of the queue, and waits for more.
  pub record Replied (o : Outcome) (q : List MsgNode) (ms : List (List ℕ)) : Type 0 where
    pub chars : List ℕ
    pub recv : Option MsgNode
    pub pending : Bool
    pub replies : List MsgNode
    pub size : length chars ≡ 3
    pub ended :
        o
        ≡ returned
            (at_head uuid chars recv (memset_zero buffer 2048) (q ++ replies) pending)
            (writes q replies ++ async_read_some ∷ [])
    pub wires : map wire replies ≡ map (λ m. frame (reply proto m)) ms

  abbrev next_chars : List ℕ → ℕ → List ℕ
  next_chars chars c = memset_zero (head_chars proto p uuid none buffer [] false chars c) 2

  round_whole :
      (recv : Option MsgNode) (q : List MsgNode) (pending : Bool) (chars : List ℕ) (c n : ℕ)
      (m bs : List ℕ) (short : length (reply proto m) < 32768)
      → length chars ≡ 3
      → c + n ≤ length buffer
      → length m ≤ 2048
      → length q ≤ 1000
      → window buffer c n ≡ frame m ++ bs
      → (node : MsgNode) × (length (next_chars chars c) ≡ 3)
        × (round proto p (at_head uuid chars recv buffer q pending) c n
            ≡ next_round
                (at_head uuid
                  (next_chars chars c)
                  (some node)
                  buffer
                  (q ++ sent p (reply proto m) short ∷ [])
                  (ltb 0 (length q)))
                (c + (2 + length m))
                (length bs)
                (first_write q (sent p (reply proto m) short)))
        × (window buffer (c + (2 + length m)) (length bs) ≡ bs)
        × (c + (2 + length m) + length bs ≤ length buffer)
  round_whole recv q pending chars c n m bs short size has fits room e =
      let len = length m in
      let k = length bs in
      let split =
        window-front buffer (network_bytes len) (m ++ bs) c n has
          (e ∙ append_assoc (network_bytes len) m bs) in
      let total : n ≡ 2 + (len + k) = split.2 ∙ ap (λ k. 2 + k) (length-append m bs) in
      let rest = window-front buffer m bs (c + 2) (n - 2) (omega (arith, has, total)) split.1 in
      let head = head_chars proto p uuid none buffer [] false chars c in
      let head_size : length head ≡ 3 =
        length-overwrite chars 0 buffer c 2 (omega (arith, size)) (omega (arith, has, total))
        ∙ size in
      let at : c + 2 + len ≡ c + (2 + len) = omega arith in
      let left : n - 2 - len ≡ k = omega (arith, total) in
      let node = ended_node proto p uuid none buffer [] false (c + 2) m in
      (
        node,
        length-memset_zero head 2 (omega (arith, head_size)) ∙ head_size,
        read_head-whole proto p uuid recv buffer q pending chars c n len size (omega (arith, total))
              has (omega (arith, fits)) split.0
            ∙ (accept_head-whole proto p uuid recv buffer q pending head (c + 2) (n - 2) m
                  (omega (arith, total)) fits (omega (arith, has, total))
                ∙ (answer-eq proto p uuid recv buffer q pending head (c + 2) (c + 2 + len)
                      (n - 2 - len) m short (omega (arith, has, total)) rest.0 room
                    ∙ ap₂
                        (λ a b.
                          next_round
                            (at_head uuid (next_chars chars c) (some node) buffer
                              (q ++ sent p (reply proto m) short ∷ []) (ltb 0 (length q)))
                            a b (first_write q (sent p (reply proto m) short)))
                        at left)),
        ap₂ (window buffer) (sym at) (sym left) ∙ rest.1,
        omega (arith, has, total),
      )

  read_loop-next :
      (fuel : ℕ) (s s' : Session) (c n c' n' : ℕ) (es : List Effect)
      → 0 < n
      → round proto p s c n ≡ next_round s' c' n' es
      → read_loop proto p (suc fuel) s c n
        ≡ follow (read_loop proto p fuel) (next_round s' c' n' es)
  unfolding read_loop
  read_loop-next fuel s s' c n c' n' es some_left e = rw (lt→ltb 0 n some_left, e)

  pub read_loop-frames :
      (ms : List (List ℕ)) (m : List ℕ) (recv : Option MsgNode) (q : List MsgNode) (pending : Bool)
      (chars : List ℕ) (c n fuel : ℕ)
      → All (IsServed proto) (m ∷ ms)
      → length chars ≡ 3
      → c + n ≤ length buffer
      → length q + length ms ≤ 1000
      → length ms < fuel
      → window buffer c n ≡ frames (m ∷ ms)
      → Replied (read_loop proto p fuel (at_head uuid chars recv buffer q pending) c n) q (m ∷ ms)
  unfolding frames
  read_loop-frames ms m recv q pending chars c n zero served size has room more e = elim more [ ]
  read_loop-frames [] m recv q pending chars c n (suc fuel) (serve, served) size has room more e =
      let w =
        round_whole recv q pending chars c n m [] serve.1 size has serve.0 (omega (arith, room))
          e in
      let r = sent p (reply proto m) serve.1 in
      let some_left : 0 < n = window-frame_positive buffer c n m [] has e in
      record {
        chars = next_chars chars c;
        recv = some w.0;
        pending = ltb 0 (length q);
        replies = r ∷ [];
        size = w.1;
        ended =
            read_loop-next fuel (at_head uuid chars recv buffer q pending)
              (at_head uuid (next_chars chars c) (some w.0) buffer (q ++ r ∷ []) (ltb 0 (length q)))
              c n (c + (2 + length m)) 0 (first_write q r) (some_left) w.2
            ∙ (follow-next_end (read_loop proto p fuel)
                  (at_head uuid (next_chars chars c) (some w.0) buffer (q ++ r ∷ [])
                    (ltb 0 (length q)))
                  (c + (2 + length m)) (first_write q r)
                ∙ ap
                    (λ es.
                      returned
                        (at_head uuid (next_chars chars c) (some w.0) (memset_zero buffer 2048)
                          (q ++ r ∷ []) (ltb 0 (length q)))
                        (es ++ async_read_some ∷ []))
                    (first_write-writes q [] r));
        wires = ap (λ t. t ∷ []) (wire-sent p (reply proto m) serve.1);
      }
  read_loop-frames (m' ∷ ms) m recv q pending chars c n (suc fuel) (serve, served) size has room
        more e =
      let left = length (frames (m' ∷ ms)) in
      let w =
        round_whole recv q pending chars c n m (frames (m' ∷ ms)) serve.1 size has serve.0
          (omega (arith, room)) e in
      let r = sent p (reply proto m) serve.1 in
      let some_left : 0 < n = window-frame_positive buffer c n m (frames (m' ∷ ms)) has e in
      let ih =
        read_loop-frames ms m' (some w.0) (q ++ r ∷ []) (ltb 0 (length q)) (next_chars chars c)
          (c + (2 + length m)) left fuel served w.1 w.4
          (omega (arith, room, length-append q (r ∷ []))) (omega (arith, more)) w.3 in
      record {
        chars = ih.chars;
        recv = ih.recv;
        pending = ih.pending;
        replies = r ∷ ih.replies;
        size = ih.size;
        ended =
            read_loop-next fuel (at_head uuid chars recv buffer q pending)
              (at_head uuid (next_chars chars c) (some w.0) buffer (q ++ r ∷ []) (ltb 0 (length q)))
              c n (c + (2 + length m)) left (first_write q r) (some_left) w.2
            ∙ (follow-next_more (read_loop proto p fuel)
                  (at_head uuid (next_chars chars c) (some w.0) buffer (q ++ r ∷ [])
                    (ltb 0 (length q)))
                  (c + (2 + length m)) left (first_write q r) (omega arith)
                ∙ (ap (after (first_write q r)) ih.ended
                    ∙ ap₂
                        (λ t es.
                          returned
                            (at_head uuid ih.chars ih.recv (memset_zero buffer 2048) t ih.pending)
                            es)
                        (append_assoc q (r ∷ []) ih.replies)
                        (ap₂ (λ a b. a ++ (b ++ async_read_some ∷ []))
                          (first_write-writes q ih.replies r) (writes-behind q ih.replies r))));
        wires = ap₂ (λ x xs. x ∷ xs) (wire-sent p (reply proto m) serve.1) ih.wires;
      }

-- A read of one or more whole messages, each with a body of at most 2048 bytes and a reply shorter
-- than 32768 bytes, into a session between messages whose queue has at most 1001 nodes with theirs:
-- with a unit of fuel for each message the call returns, the queue has got one node for each message,
-- whose bytes on the wire are the length and the text of its reply, in order; the first of them is
-- written when the queue was empty, nothing else is; the session is between messages again, its
-- buffer is cleared and one read is started.
pub handle_read-frames :
    (proto : MsgData) (p : Platform) (uuid : ℕ) (buffer chars : List ℕ) (recv : Option MsgNode)
    (q : List MsgNode) (pending : Bool) (n fuel : ℕ) (m : List ℕ) (ms : List (List ℕ))
    → length chars ≡ 3
    → n ≤ length buffer
    → window buffer 0 n ≡ frames (m ∷ ms)
    → All (IsServed proto) (m ∷ ms)
    → length q + length ms ≤ 1000
    → length ms < fuel
    → Replied proto p uuid buffer
        (handle_read proto p fuel (at_head uuid chars recv buffer q pending) false n)
        q
        (m ∷ ms)
unfolding handle_read
handle_read-frames proto p uuid buffer chars recv q pending n fuel m ms size has e served room
      more =
    read_loop-frames proto p uuid buffer ms m recv q pending chars 0 n fuel served size
      (omega (arith, has)) room more e
