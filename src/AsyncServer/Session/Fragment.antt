-- ===== src/AsyncServer/Session/Fragment.antt =====
-- A message that comes in several reads: `handle_read` while the rest of a body is awaited, and
-- what it leaves behind when the body is complete.
use boost_learn.Base.{
  ℕ, suc, ◌+◌, ◌-◌, ◌≤◌, ◌<◌, ◌≡◌, refl, sym, ap, ◌∙◌, List, [], ◌∷◌, ◌++◌, false, arith, length,
  replicate, window, lt→ltb,
}
use boost_learn.Memory.{memset_zero, length-memset_zero}
use boost_learn.Platform.{Platform}
use boost_learn.AsyncServer.MsgNode.{RecvNode}
use boost_learn.AsyncServer.MsgNode.Contents.{contents}
use boost_learn.AsyncServer.Session.{
  Session, async_read_some, post_msg_to_que, returned, spinning, follow, read_loop, handle_read,
  deliver, after, round, memset_zero,
}
use boost_learn.AsyncServer.Session.Append.{cur_len-grown, contents-grown}
use boost_learn.AsyncServer.Session.Rest.{
  IsReadingBody, missing, extended, with_node, round_part, round_whole, round_more,
  extended-IsReadingBody, full_node_spins,
}
use boost_learn.AsyncServer.Session.Receive.{
  IsRead, length-deliver, window-deliver, deliver-IsReadingBody,
}

-- Nothing of the body is missing.
abbrev pub IsFull : RecvNode → Type 0
IsFull r = r.node.cur_len ≡ r.node.max_len

-- `r'` is `r` with `more` behind what it held.
pub record Extends (r : RecvNode) (more : List ℕ) (r' : RecvNode) : Type 0 where
  pub same_id : r'.msg_id ≡ r.msg_id
  pub same_size : r'.node.max_len ≡ r.node.max_len
  pub longer : r'.node.cur_len ≡ r.node.cur_len + length more
  pub holds : contents r'.node ≡ contents r.node ++ more

module _ (p : Platform) (s : Session) (r : RecvNode) (chunk : List ℕ) (v : IsReadingBody s r)
    (i : IsRead chunk) where
  abbrev received : Session
  received = deliver s chunk

  received-IsReadingBody : IsReadingBody received r
  received-IsReadingBody = deliver-IsReadingBody s chunk r v i.room

  has_room : 0 + length chunk ≤ length received.buffer
  has_room = omega (arith, length-deliver s chunk v.array i.room)

  first_round :
      (fuel : ℕ)
      → handle_read p (suc fuel) received false (length chunk)
        ≡ follow (read_loop p fuel) (round p received 0 (length chunk))
  unfolding handle_read
  first_round fuel = rw (lt→ltb 0 (length chunk) i.some_come)

  extended-Extends :
      (n : ℕ) → n ≡ length chunk → n ≤ missing r → Extends r chunk (extended received r 0 n)
  extended-Extends n e h =
      let k = received-IsReadingBody in
      record {
        same_id = refl;
        same_size = refl;
        longer =
            cur_len-grown r.node received.buffer 0 n k.node_valid (omega (arith, h, k))
              (omega (arith, has_room, e))
            ∙ ap (λ t. r.node.cur_len + t) e;
        holds =
            contents-grown r.node received.buffer 0 n k.node_valid (omega (arith, h, k))
              (omega (arith, has_room, e))
            ∙ ap (λ t. contents r.node ++ t)
                (ap (window received.buffer 0) e ∙ window-deliver s chunk);
      }

zeroed-IsReadingBody :
    {s : Session} {r : RecvNode}
    → IsReadingBody s r
    → IsReadingBody (record s { buffer = memset_zero s.buffer 2048 }) r
zeroed-IsReadingBody {s} v = record {
  at_body = v.at_body;
  node_is = v.node_is;
  node_valid = v.node_valid;
  array = omega (arith, v.array, length-memset_zero s.buffer 2048);
}

fill_up :
    {s : Session} {r : RecvNode} → IsReadingBody s r → r.node.cur_len + missing r ≡ r.node.max_len
fill_up v = omega (arith, v)

-- A read that brings less than is missing of a body: its bytes are put behind those that the
-- session holds, nothing is posted, and the next read is armed.
pub rest_part :
    (p : Platform) (fuel : ℕ) (s : Session) (r : RecvNode) (chunk : List ℕ)
    → IsReadingBody s r
    → IsRead chunk
    → length chunk < missing r
    → (s' : Session) × (r' : RecvNode) × (handle_read p
          (suc fuel)
          (deliver s chunk)
          false
          (length chunk)
        ≡ returned s' (async_read_some ∷ []))
      × IsReadingBody s' r'
      × Extends r chunk r'
unfolding follow
rest_part p fuel s r chunk v i h =
    let n = length chunk in
    let k = received-IsReadingBody p s r chunk v i in
    let has = has_room p s r chunk v i in
    let r' = extended (deliver s chunk) r 0 n in
    let kept = extended-IsReadingBody p (deliver s chunk) r 0 n k has (omega (arith, h)) in
    (
      record (with_node (deliver s chunk) r') {
        buffer = memset_zero (deliver s chunk).buffer 2048;
      },
      r',
      first_round p s r chunk v i fuel
          ∙ ap (follow (read_loop p fuel)) (round_part p (deliver s chunk) r 0 n k has h),
      zeroed-IsReadingBody kept,
      extended-Extends p s r chunk v i n refl (omega (arith, h)),
    )

-- A read that brings just what is missing of a body: the message is posted with all of its body,
-- and the next read is armed. The session still awaits a body, and its node is full.
pub rest_whole :
    (p : Platform) (fuel : ℕ) (s : Session) (r : RecvNode) (chunk : List ℕ)
    → IsReadingBody s r
    → IsRead chunk
    → length chunk ≡ missing r
    → (s' : Session) × (r' : RecvNode) × (handle_read p
          (suc fuel)
          (deliver s chunk)
          false
          (length chunk)
        ≡ returned s' (post_msg_to_que r' ∷ async_read_some ∷ []))
      × IsReadingBody s' r'
      × Extends r chunk r'
      × IsFull r'
unfolding follow
rest_whole p fuel s r chunk v i h =
    let n = missing r in
    let k = received-IsReadingBody p s r chunk v i in
    let has = has_room p s r chunk v i in
    let r' = extended (deliver s chunk) r 0 n in
    let kept =
      extended-IsReadingBody p (deliver s chunk) r 0 n k (omega (arith, h, has)) (omega arith) in
    let ext = extended-Extends p s r chunk v i n (sym h) (omega arith) in
    (
      record (with_node (deliver s chunk) r') {
        buffer = memset_zero (deliver s chunk).buffer 2048;
      },
      r',
      first_round p s r chunk v i fuel
          ∙ ap (follow (read_loop p fuel))
              (round_whole p (deliver s chunk) r 0 (length chunk) k has h),
      zeroed-IsReadingBody kept,
      ext,
      omega (arith, ext.longer, h, v.node_valid.within),
    )

-- A read that brings more than is missing of a body never returns: however many rounds are made,
-- each posts the message that was completed, and the bytes behind it are not looked at.
pub rest_overrun_spins :
    (p : Platform) (s : Session) (r : RecvNode) (chunk : List ℕ)
    → IsReadingBody s r
    → IsRead chunk
    → missing r < length chunk
    → (s' : Session) × (r' : RecvNode) × ((fuel : ℕ)
        → handle_read p (suc fuel) (deliver s chunk) false (length chunk)
          ≡ spinning s' (replicate (suc fuel) (post_msg_to_que r')))
unfolding follow
rest_overrun_spins p s r chunk v i h =
    let n = missing r in
    let k = received-IsReadingBody p s r chunk v i in
    let has = has_room p s r chunk v i in
    let r' = extended (deliver s chunk) r 0 n in
    let s' = with_node (deliver s chunk) r' in
    let kept =
      extended-IsReadingBody p (deliver s chunk) r 0 n k (omega (arith, h, has)) (omega arith) in
    let full : IsFull r' =
      cur_len-grown r.node (deliver s chunk).buffer 0 n k.node_valid (omega (arith, v))
        (omega (arith, h, has))
      ∙ fill_up v in
    (
      s',
      r',
      λ fuel.
          first_round p s r chunk v i fuel
          ∙ (ap (follow (read_loop p fuel))
                (round_more p (deliver s chunk) r 0 (length chunk) k has h)
              ∙ ap (after (post_msg_to_que r' ∷ [])) (
                  full_node_spins p s' r' kept full fuel (0 + n) (length chunk - n)
                    (omega (arith, h)) (omega (arith, h, has)))),
    )

-- A session whose body is complete, and which still awaits a body, never returns from its next
-- read: each round posts the same message once more, and consumes nothing.
pub full_rest_spins :
    (p : Platform) (fuel : ℕ) (s : Session) (r : RecvNode) (chunk : List ℕ)
    → IsReadingBody s r
    → IsFull r
    → IsRead chunk
    → handle_read p fuel (deliver s chunk) false (length chunk)
      ≡ spinning (deliver s chunk) (replicate fuel (post_msg_to_que r))
unfolding handle_read
full_rest_spins p fuel s r chunk v full i =
    full_node_spins p (deliver s chunk) r (received-IsReadingBody p s r chunk v i) full fuel 0
      (length chunk) i.some_come (has_room p s r chunk v i)
