-- ===== src/AsyncServer/Session/Rest.antt =====
-- The rest of a message whose head came in an earlier read: less than is missing, just that, or
-- more. In the last two cases `_b_head_parse` stays set.
use boost_learn.Base.{
  ℕ, zero, suc, ◌+◌, ◌-◌, ◌≤◌, ◌<◌, ◌≡◌, refl, sym, ap, ap₂, ◌∙◌, List, [], ◌∷◌, ◌++◌, true, some,
  arith, lt→ltb, le→ltb, le→leb, lt→leb, length, replicate, take, drop, take-append-drop,
}
use boost_learn.Memory.{overwrite, memset_zero}
use boost_learn.Platform.{Platform, to_short}
use boost_learn.AsyncServer.MsgNode.{MsgNode, RecvNode}
use boost_learn.AsyncServer.MsgNode.Contents.{IsValid}
use boost_learn.AsyncServer.Session.{
  Session, async_read_some, post_msg_to_que, leave, again, spinning, round, follow, read_loop,
  wait_for_more, next_round, after,
}
use boost_learn.AsyncServer.Session.Append.{grown, append-eq, grown-IsValid}

-- The session holds the head of a message and part of its body.
pub record IsReadingBody (s : Session) (r : RecvNode) : Type 0 where
  pub at_body : s.b_head_parse ≡ true
  pub node_is : s.recv_msg_node ≡ some r
  pub node_valid : IsValid r.node
  pub array : 2048 ≤ length s.buffer

abbrev pub missing : RecvNode → ℕ
missing r = r.node.max_len - r.node.cur_len

abbrev pub extended : Session → RecvNode → ℕ → ℕ → RecvNode
extended s r c n = record r { node = grown r.node s.buffer c n }

abbrev pub with_node : Session → RecvNode → Session
with_node s r = record s { recv_msg_node = some r }

module _ (p : Platform) (s : Session) (r : RecvNode) (c n : ℕ) (v : IsReadingBody s r)
    (has : c + n ≤ length s.buffer) where
  pub round_part :
      n < missing r
      → round p s c n
        ≡ leave
            (record (with_node s (extended s r c n)) { buffer = memset_zero s.buffer 2048 })
            (async_read_some ∷ [])
  unfolding round wait_for_more
  round_part h =
      simp (v.at_body, v.node_is)
        (rw (lt→ltb _ _ h, append-eq r.node s.buffer c n v.node_valid (omega (arith, h)) has))

  pub round_whole :
      n ≡ missing r
      → round p s c n
        ≡ leave
            (record (with_node s (extended s r c (missing r))) {
              buffer = memset_zero s.buffer 2048;
            })
            (post_msg_to_que (extended s r c (missing r)) ∷ async_read_some ∷ [])
  unfolding round wait_for_more next_round
  round_whole h =
      simp (v.at_body, v.node_is)
        (rw (
          le→ltb n (missing r) (omega (arith, h)),
          append-eq r.node s.buffer c (missing r) v.node_valid (omega (arith, v))
              (omega (arith, h, has)),
          le→leb (n - missing r) 0 (omega (arith, h)),
        ))

  pub round_more :
      missing r < n
      → round p s c n
        ≡ again
            (with_node s (extended s r c (missing r)))
            (c + missing r)
            (n - missing r)
            (post_msg_to_que (extended s r c (missing r)) ∷ [])
  unfolding round next_round
  round_more h =
      simp (v.at_body, v.node_is)
        (rw (
          le→ltb n (missing r) (omega (arith, h)),
          append-eq r.node s.buffer c (missing r) v.node_valid (omega (arith, v))
              (omega (arith, h, has)),
          lt→leb (n - missing r) 0 (omega (arith, h)),
        ))

  pub extended-IsReadingBody :
      n ≤ missing r → IsReadingBody (with_node s (extended s r c n)) (extended s r c n)
  extended-IsReadingBody h = record {
    at_body = v.at_body;
    node_is = refl;
    node_valid = grown-IsValid r.node s.buffer c n v.node_valid (omega (arith, v, h)) has;
    array = v.array;
  }

-- Copying nothing into a node leaves it as it is.
grown_nothing :
    (node : MsgNode) (buffer : List ℕ) (c : ℕ) → IsValid node → grown node buffer c 0 ≡ node
unfolding overwrite
grown_nothing node buffer c v =
    let cur : to_short (node.cur_len + 0) ≡ node.cur_len = omega (arith, v) in
    let same : node.cur_len + 0 ≡ node.cur_len = omega arith in
    ap₂
      (λ k l. record node {
        chars = take node.cur_len node.chars ++ drop k node.chars;
        cur_len = l;
      })
      same cur
    ∙ ap (λ t. record node { chars = t }) (take-append-drop node.cur_len node.chars)

module _ (p : Platform) (s : Session) (r : RecvNode) (v : IsReadingBody s r)
    (full : r.node.cur_len ≡ r.node.max_len) where
  full_round :
      (c n : ℕ)
      → 0 < n
      → c + n ≤ length s.buffer
      → round p s c n ≡ again s c n (post_msg_to_que r ∷ [])
  full_round c n h has =
      let m = missing r in
      let nothing : m ≡ 0 = omega (arith, full) in
      let same : extended s r c m ≡ r =
        ap (λ k. extended s r c k) nothing
        ∙ ap (λ t. record r { node = t }) (grown_nothing r.node s.buffer c v.node_valid) in
      let offset : c + m ≡ c = omega (arith, nothing) in
      let left : n - m ≡ n = omega (arith, nothing) in
      round_more p s r c n v has (omega (arith, nothing, h))
      ∙ (ap (λ t. again (with_node s t) (c + m) (n - m) (post_msg_to_que t ∷ [])) same
          ∙ (ap
                (λ t.
                  again (record s { recv_msg_node = t }) (c + m) (n - m) (post_msg_to_que r ∷ []))
                (sym v.node_is)
              ∙ ap₂ (λ a b. again s a b (post_msg_to_que r ∷ [])) offset left))

  -- A node that is full is posted again in every round, and no byte is consumed.
  pub full_node_spins :
      (fuel c n : ℕ)
      → 0 < n
      → c + n ≤ length s.buffer
      → read_loop p fuel s c n ≡ spinning s (replicate fuel (post_msg_to_que r))
  unfolding read_loop
  full_node_spins zero c n h has = refl
  full_node_spins (suc fuel) c n h has = rw (lt→ltb 0 n h) (
      ap (follow (read_loop p fuel)) (full_round c n h has)
      ∙ ap (after (post_msg_to_que r ∷ [])) (full_node_spins fuel c n h has))
