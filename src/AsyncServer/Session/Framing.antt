-- ===== src/AsyncServer/Session/Framing.antt =====
-- `handle_read` between messages refines the decoder of the wire format.
use boost_learn.Base.{
  ℕ, zero, suc, ◌+◌, ◌-◌, ◌≤◌, ◌<◌, ◌≡◌, refl, sym, ap, ap₂, ◌∙◌, subst, List, [], ◌∷◌, ◌++◌, some,
  inl, inr, arith, compare_cases, ◌⊎◌, Bool-cases, lt→ltb, leb→lt, length, drop, window,
  window_split, length-window, All, All-append_right, four_of_length, length-append, append-nil,
  lt_cases,
}
use boost_learn.Memory.{overwrite_front}
use boost_learn.Platform.{Platform, IsByte, exceeds, is_negative}
use boost_learn.AsyncServer.MsgNode.{RecvNode, recv_node, new_node, clear}
use boost_learn.AsyncServer.MsgNode.Contents.{
  IsValid, contents, length-contents, contents_nil, fresh_node, fresh_node-IsValid, clear-IsValid,
}
use boost_learn.AsyncServer.Session.{
  Session, follow, read_message, accept_head, round, read_loop, read_short, Outcome, check_head,
}
use boost_learn.AsyncServer.Session.Append.{contents-grown}
use boost_learn.AsyncServer.Session.Decode.{
  Reading, waiting, head, body, big_endian, decode, decode_head, decode_body, decode_more,
  decode_short, decode_more-cons, decode_body_part, decode_body_whole, with_events, message,
  rejected,
}
use boost_learn.AsyncServer.Session.Body.{
  whole, between, read_message_few, read_message_end, read_message_again, contents-part,
  contents-whole, between-IsReadingHead,
}
use boost_learn.AsyncServer.Session.Head.{
  round_few, remind, headed, round_head, headed-IsReadingHead, front, length-front, front_split,
}
use boost_learn.AsyncServer.Session.View.{observe, observe-after, IsReadingHead, pending_by}

-- A head that is complete, and the loop that goes on behind its message.
module _ (uuid fuel : ℕ) (loop : Session → ℕ → ℕ → Outcome) where
  -- What the loop is to do between messages.
  abbrev Refines : Type 0
  Refines =
      (s : Session) (c n : ℕ)
      → s.uuid ≡ uuid
      → IsReadingHead s
      → 0 < n
      → c + n ≤ length s.buffer
      → All IsByte (contents s.recv_head_node ++ window s.buffer c n)
      → observe (loop s c n) ≡ decode uuid fuel (contents s.recv_head_node ++ window s.buffer c n)

  message_refines :
      (s : Session) (r : RecvNode) (c n : ℕ)
      → Refines
      → s.uuid ≡ uuid
      → IsReadingHead s
      → IsValid r.node
      → r.node.cur_len ≡ 0
      → c + n ≤ length s.buffer
      → All IsByte (window s.buffer c n)
      → observe (follow loop (read_message s r r.node.max_len c n))
        ≡ decode_body (decode uuid fuel) r.msg_id r.node.max_len (window s.buffer c n)
  unfolding follow
  message_refines s r c n ih hu v vr z has bytes = by_size (compare_cases n r.node.max_len)
    where
      len : ℕ
      len = r.node.max_len

      bs : List ℕ
      bs = window s.buffer c n

      cleared : contents (clear s.recv_head_node) ≡ []
      cleared = contents_nil (clear s.recv_head_node) (clear-IsValid v.head_valid).1

      report : List ℕ → Reading → Reading
      report m = with_events (message (record { msg_id = r.msg_id; body = m }) ∷ [])

      tail :
          len < n
          → observe (loop (between s r c) (c + len) (n - len))
            ≡ decode_more (decode uuid fuel) (window s.buffer (c + len) (n - len))
      tail h =
          let ys = window s.buffer (c + len) (n - len) in
          let size = length-window s.buffer (c + len) (n - len) (omega (arith, h, has)) in
          let rest = ap (λ t. t ++ ys) cleared in
          ih (between s r c) (c + len) (n - len) hu (between-IsReadingHead s r c v)
            (omega (arith, h)) (omega (arith, h, has))
            (subst (All IsByte) (sym rest) (
              All-append_right IsByte (window s.buffer c len) ys
                (subst (All IsByte) (window_split len n c s.buffer (omega (arith, h))) bytes)))
          ∙ (ap (decode uuid fuel) rest
              ∙ sym (decode_more-cons (decode uuid fuel) ys (omega (arith, h, size))))

      by_size :
          ((n < len) ⊎ (n ≡ len)) ⊎ (len < n)
          → observe (follow loop (read_message s r len c n))
            ≡ decode_body (decode uuid fuel) r.msg_id len bs
      by_size (inl (inl h)) =
          ap (λ t. observe (follow loop t)) (read_message_few s r c n vr z has h)
          ∙ (ap (λ t. waiting (body r.msg_id len t)) (contents-part s r c n vr z has (omega arith))
              ∙ sym (
                  decode_body_part (decode uuid fuel) r.msg_id len bs
                    (omega (arith, h, length-window s.buffer c n has))))
      by_size (inl (inr h)) =
          ap (λ t. observe (follow loop t)) (read_message_end s r c n vr z has h)
          ∙ (ap₂ (λ m t. report m (waiting (head t)))
                (contents-whole s r c n vr z has (omega (arith, h))
                  ∙ ap (window s.buffer c) (sym h))
                cleared
              ∙ (sym (
                    decode_body_whole (decode uuid fuel) r.msg_id len bs []
                      (omega (arith, h, length-window s.buffer c n has)))
                  ∙ ap (decode_body (decode uuid fuel) r.msg_id len) (append-nil bs)))
      by_size (inr h) =
          ap (λ t. observe (follow loop t)) (read_message_again s r c n vr z has h)
          ∙ (observe-after (whole s r c) (loop (between s r c) (c + len) (n - len))
              ∙ (ap₂ report (contents-whole s r c n vr z has (omega (arith, h))) (tail h)
                  ∙ (sym (
                        decode_body_whole (decode uuid fuel) r.msg_id len (window s.buffer c len)
                          (window s.buffer (c + len) (n - len))
                          (length-window s.buffer c len (omega (arith, h, has))))
                      ∙ ap (decode_body (decode uuid fuel) r.msg_id len)
                          (sym (window_split len n c s.buffer (omega (arith, h)))))))

  check_refines :
      (p : Platform) (s : Session) (msg_id msg_len c n : ℕ)
      → Refines
      → s.uuid ≡ uuid
      → IsReadingHead s
      → c + n ≤ length s.buffer
      → All IsByte (window s.buffer c n)
      → observe (follow loop (check_head p s msg_id msg_len c n))
        ≡ decode_head uuid (decode uuid fuel) msg_id msg_len (window s.buffer c n)
  unfolding check_head recv_node follow
  check_refines p s msg_id msg_len c n ih hu v has bytes = elim (Bool-cases (exceeds msg_id 2048)) [
    | inl big ↦ rw big (ap rejected hu)
    | inr id_fits ↦ elim (Bool-cases (exceeds msg_len 2048)) [
      | inl big ↦ rw (id_fits, big) (ap rejected hu)
      | inr len_fits ↦ elim (Bool-cases (is_negative msg_len)) [
        | inl neg ↦ rw (id_fits, len_fits, neg, new_node)
        | inr pos ↦
            let r : RecvNode = record { node = fresh_node p msg_len; msg_id = msg_id } in
            rw (id_fits, len_fits, pos)
              (message_refines (record s { recv_msg_node = some r }) r c n ih hu
                (record {
                  at_head = v.at_head;
                  head_valid = v.head_valid;
                  head_size = v.head_size;
                  head_open = v.head_open;
                  array = v.array;
                })
                (fresh_node-IsValid p msg_len (leb→lt 32768 msg_len pos)) refl has bytes)
      ]
    ]
  ]

  -- The head is what stands in the head's node.
  accept_refines :
      (p : Platform) (s : Session) (a b x y : ℕ) (more : List ℕ) (c n : ℕ)
      → Refines
      → s.uuid ≡ uuid
      → IsReadingHead s
      → s.recv_head_node.chars ≡ a ∷ b ∷ x ∷ y ∷ more
      → c + n ≤ length s.buffer
      → All IsByte (a ∷ b ∷ x ∷ y ∷ window s.buffer c n)
      → observe (follow loop (accept_head p s c n))
        ≡ decode uuid (suc fuel) (a ∷ b ∷ x ∷ y ∷ window s.buffer c n)
  unfolding accept_head decode
  accept_refines p s a b x y more c n ih hu v e has (ha, (hb, (hx, (hy, bytes)))) =
      ap₂ (λ i l. observe (follow loop (check_head p s i l c n)))
        (ap (λ t. read_short p t 0) e ∙ p.load_network a b ha hb)
        (ap (λ t. read_short p t 2) e ∙ p.load_network x y hx hy)
      ∙ check_refines p s (big_endian a b) (big_endian x y) c n ih hu v has bytes

-- One round, for bytes that are there.
read_loop-round :
    (p : Platform) (fuel : ℕ) (s : Session) (c n : ℕ)
    → 0 < n
    → read_loop p (suc fuel) s c n ≡ follow (read_loop p fuel) (round p s c n)
unfolding read_loop
read_loop-round p fuel s c n h = rw (lt→ltb 0 n h)

few_refines :
    (p : Platform) (uuid fuel : ℕ) (loop : Session → ℕ → ℕ → Outcome) (s : Session) (c n : ℕ)
    → IsReadingHead s
    → n + s.recv_head_node.cur_len < 4
    → c + n ≤ length s.buffer
    → observe (follow loop (round p s c n))
      ≡ decode uuid (suc fuel) (contents s.recv_head_node ++ window s.buffer c n)
unfolding follow
few_refines p uuid fuel loop s c n v few has =
    let bs = contents s.recv_head_node ++ window s.buffer c n in
    ap (λ t. observe (follow loop t)) (round_few p s c n v few has)
    ∙ (ap₂ (λ b t. waiting (pending_by b s.recv_msg_node t)) v.at_head refl
        ∙ (ap (λ t. waiting (head t))
              (contents-grown s.recv_head_node s.buffer c n v.head_valid (omega (arith, v)) has)
            ∙ sym (
                decode_short uuid fuel bs (
                  omega (
                    arith,
                    few,
                    length-append (contents s.recv_head_node) (window s.buffer c n),
                    length-contents v.head_valid,
                    length-window s.buffer c n has,
                  )))))

module _ (p : Platform) (uuid fuel : ℕ) (loop : Session → ℕ → ℕ → Outcome)
    (ih : Refines uuid fuel loop) (s : Session) (c n : ℕ) (v : IsReadingHead s)
    (enough : 4 ≤ n + s.recv_head_node.cur_len) (has : c + n ≤ length s.buffer) where
  abbrev offset : ℕ
  offset = c + remind p s c n v enough has

  abbrev left : ℕ
  left = n - remind p s c n v enough has

  abbrev rest : List ℕ
  rest = window s.buffer offset left

  head_refines :
      s.uuid ≡ uuid
      → All IsByte (contents s.recv_head_node ++ window s.buffer c n)
      → (a : ℕ) × (b : ℕ) × (x : ℕ) × (y : ℕ) × (front p s c n v enough has ≡ a ∷ b ∷ x ∷ y ∷ [])
      → observe (follow loop (round p s c n))
        ≡ decode uuid (suc fuel) (contents s.recv_head_node ++ window s.buffer c n)
  head_refines hu bytes (a, b, x, y, e) =
      let all = front_split p s c n v enough has ∙ ap (λ t. t ++ rest) e in
      let more =
        drop (s.recv_head_node.cur_len + remind p s c n v enough has) s.recv_head_node.chars in
      ap (λ t. observe (follow loop t)) (round_head p s c n v enough has)
      ∙ (accept_refines uuid fuel loop p (headed p s c n v enough has) a b x y more offset left ih
            hu (headed-IsReadingHead p s c n v enough has)
            (overwrite_front s.recv_head_node.chars s.recv_head_node.cur_len s.buffer c
                (remind p s c n v enough has) (omega (arith, v)) (omega (arith, v))
              ∙ ap (λ t. t ++ more) e)
            (omega (arith, v, enough, has)) (subst (All IsByte) all bytes)
          ∙ ap (decode uuid (suc fuel)) (sym all))

-- The loop between messages, at whatever offset, decodes the bytes of the head that it holds and
-- then those that are left in `_data`.
pub read_loop_refines :
    (p : Platform) (uuid fuel : ℕ) (s : Session) (c n : ℕ)
    → s.uuid ≡ uuid
    → IsReadingHead s
    → 0 < n
    → c + n ≤ length s.buffer
    → All IsByte (contents s.recv_head_node ++ window s.buffer c n)
    → observe (read_loop p fuel s c n)
      ≡ decode uuid fuel (contents s.recv_head_node ++ window s.buffer c n)
unfolding read_loop decode
read_loop_refines p uuid zero s c n hu v more has bytes = refl
read_loop_refines p uuid (suc fuel) s c n hu v more has bytes =
    ap observe (read_loop-round p fuel s c n more)
    ∙ elim (lt_cases (n + s.recv_head_node.cur_len) 4) [
      | inl few ↦ few_refines p uuid fuel (read_loop p fuel) s c n v few has
      | inr enough ↦
          head_refines p uuid fuel (read_loop p fuel) (read_loop_refines p uuid fuel) s c n v enough
            has hu bytes
            (four_of_length (front p s c n v enough has) (length-front p s c n v enough has))
    ]
