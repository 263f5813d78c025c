-- ===== src/AsyncServer/Session/Invariant.antt =====
-- What holds of a session between two calls of `handle_read`: it reads a head, or the rest of a
-- body, and its nodes have the room that they claim.
use boost_learn.Base.{
  ℕ, zero, suc, ◌+◌, ◌-◌, ◌≤◌, ◌<◌, ◌≡◌, refl, sym, subst, List, ◌⊎◌, inl, inr, true, some, arith,
  Bool-cases, leb→lt, length, compare_cases, lt_cases,
}
use boost_learn.Memory.{memset_zero, length-memset_zero}
use boost_learn.Platform.{Platform, exceeds, is_negative}
use boost_learn.AsyncServer.MsgNode.{RecvNode, recv_node}
use boost_learn.AsyncServer.MsgNode.Contents.{IsValid, fresh_node, fresh_node-IsValid}
use boost_learn.AsyncServer.Session.{
  Session, Effect, Round, leave, again, crash, Outcome, returned, spinning, fault, after, round,
  follow, read_loop, check_head, accept_head, read_message, read_short, ltb,
}
use boost_learn.AsyncServer.Session.Append.{grown, grown-IsValid, cur_len-grown}
use boost_learn.AsyncServer.Session.View.{IsReadingHead}
use boost_learn.AsyncServer.Session.Body.{
  part, between, between-IsReadingHead, read_message_few, read_message_end, read_message_again,
}
use boost_learn.AsyncServer.Session.Head.{
  round_few, remind, headed, round_head, headed-IsReadingHead,
}
use boost_learn.AsyncServer.Session.Rest.{
  IsReadingBody, missing, extended, with_node, round_part, round_whole, round_more,
  extended-IsReadingBody,
}

abbrev pub IsOpen : Session → Type 0
IsOpen s = IsReadingHead s ⊎ ((r : RecvNode) × IsReadingBody s r)

-- A round that a head with the length `msg_len` ends by a fault: the length is negative.
abbrev NegativeRound : Platform → Session → ℕ → ℕ → Type 0
NegativeRound p s c n =
    (v : IsReadingHead s) × (enough : 4 ≤ n + s.recv_head_node.cur_len) × (has : c + n
      ≤ length s.buffer)
    × (is_negative (read_short p (headed p s c n v enough has).recv_head_node.chars 2) ≡ true)

-- Among the rounds from this one on there is one in which a head is completed, by the bytes that
-- come, whose length is negative.
pub data MeetsNegative (p : Platform) : Session → ℕ → ℕ → Type 0 where
  now : {s : Session} {c n : ℕ} → NegativeRound p s c n → MeetsNegative p s c n
  later :
      {s t : Session} {c n c' n' : ℕ} {es : List Effect}
      → round p s c n ≡ again t c' n' es
      → MeetsNegative p t c' n'
      → MeetsNegative p s c n

-- A round leaves the session open, and further rounds stay within `_data`. `F`: why it faults.
abbrev RoundKeeps : Type 0 → Round → Type 0
RoundKeeps F (leave s es) = IsOpen s
RoundKeeps F (again s c n es) = IsOpen s × (0 < n) × (c + n ≤ length s.buffer)
RoundKeeps F crash = F

abbrev pub Keeps : Type 0 → Outcome → Type 0
Keeps F (returned s es) = IsOpen s
Keeps F (spinning s es) = IsOpen s
Keeps F (fault es) = F

zeroed : (s : Session) → IsOpen s → IsOpen (record s { buffer = memset_zero s.buffer 2048 })
zeroed s (inl v) = inl (record {
  at_head = v.at_head;
  head_valid = v.head_valid;
  head_size = v.head_size;
  head_open = v.head_open;
  array = omega (arith, v.array, length-memset_zero s.buffer 2048);
})
zeroed s (inr (r, v)) = inr (
  r,
  record {
    at_body = v.at_body;
    node_is = v.node_is;
    node_valid = v.node_valid;
    array = omega (arith, v.array, length-memset_zero s.buffer 2048);
  },
)

message_keeps :
    (F : Type 0) (s : Session) (r : RecvNode) (c n : ℕ)
    → IsReadingHead s
    → IsValid r.node
    → r.node.cur_len ≡ 0
    → c + n ≤ length s.buffer
    → RoundKeeps F (read_message s r r.node.max_len c n)
message_keeps F s r c n v vr z has = elim (compare_cases n r.node.max_len) [
  | inl (inl h) ↦ rw (read_message_few s r c n vr z has h) (
      zeroed (record s { recv_msg_node = some (part s r c n); b_head_parse = true })
        (inr (
          part s r c n,
          record {
            at_body = refl;
            node_is = refl;
            node_valid = grown-IsValid r.node s.buffer c n vr (omega (arith, h, z)) has;
            array = v.array;
          },
        )))
  | inl (inr h) ↦
      rw (read_message_end s r c n vr z has h)
        (zeroed (between s r c) (inl (between-IsReadingHead s r c v)))
  | inr h ↦
      rw (read_message_again s r c n vr z has h)
        (inl (between-IsReadingHead s r c v), omega (arith, h), omega (arith, h, has))
]

module _ (p : Platform) where
  check_keeps :
      (F : Type 0) (s : Session) (msg_id msg_len c n : ℕ)
      → IsReadingHead s
      → c + n ≤ length s.buffer
      → (is_negative msg_len ≡ true → F)
      → RoundKeeps F (check_head p s msg_id msg_len c n)
  unfolding check_head recv_node
  check_keeps F s msg_id msg_len c n v has why = elim (Bool-cases (exceeds msg_id 2048)) [
    | inl big ↦ rw big (inl v)
    | inr id_fits ↦ elim (Bool-cases (exceeds msg_len 2048)) [
      | inl big ↦ rw (id_fits, big) (inl v)
      | inr len_fits ↦ elim (Bool-cases (is_negative msg_len)) [
        | inl neg ↦ rw (id_fits, len_fits, neg) (why neg)
        | inr pos ↦
            let r : RecvNode = record { node = fresh_node p msg_len; msg_id = msg_id } in
            rw (id_fits, len_fits, pos)
              (message_keeps F (record s { recv_msg_node = some r }) r c n
                (record {
                  at_head = v.at_head;
                  head_valid = v.head_valid;
                  head_size = v.head_size;
                  head_open = v.head_open;
                  array = v.array;
                })
                (fresh_node-IsValid p msg_len (leb→lt 32768 msg_len pos)) refl has)
      ]
    ]
  ]

  head_keeps :
      (s : Session) (c n : ℕ)
      → IsReadingHead s
      → c + n ≤ length s.buffer
      → RoundKeeps (NegativeRound p s c n) (round p s c n)
  unfolding accept_head
  head_keeps s c n v has = elim (lt_cases (n + s.recv_head_node.cur_len) 4) [
    | inl few ↦
        let cur =
          cur_len-grown s.recv_head_node s.buffer c n v.head_valid (omega (arith, v, few)) has in
        rw (round_few p s c n v few has) (
          zeroed (record s { recv_head_node = grown s.recv_head_node s.buffer c n })
            (inl (record {
              at_head = v.at_head;
              head_valid =
                  grown-IsValid s.recv_head_node s.buffer c n v.head_valid (omega (arith, v, few))
                    has;
              head_size = v.head_size;
              head_open = omega (arith, few, cur);
              array = v.array;
            })))
    | inr enough ↦
        let s' = headed p s c n v enough has in
        let m = remind p s c n v enough has in
        subst (RoundKeeps (NegativeRound p s c n)) (sym (round_head p s c n v enough has)) (
          check_keeps (NegativeRound p s c n) s' (read_short p s'.recv_head_node.chars 0)
            (read_short p s'.recv_head_node.chars 2) (c + m) (n - m)
            (headed-IsReadingHead p s c n v enough has) (omega (arith, v, enough, has))
            (λ neg. (v, enough, has, neg)))
  ]

  body_keeps :
      (s : Session) (r : RecvNode) (c n : ℕ)
      → IsReadingBody s r
      → c + n ≤ length s.buffer
      → RoundKeeps (NegativeRound p s c n) (round p s c n)
  body_keeps s r c n v has = elim (compare_cases n (missing r)) [
    | inl (inl h) ↦
        subst (RoundKeeps (NegativeRound p s c n)) (sym (round_part p s r c n v has h)) (
          zeroed (with_node s (extended s r c n))
            (inr (extended s r c n, extended-IsReadingBody p s r c n v has (omega (arith, h)))))
    | inl (inr h) ↦
        subst (RoundKeeps (NegativeRound p s c n)) (sym (round_whole p s r c n v has h)) (
          zeroed (with_node s (extended s r c (missing r))) (
            inr (
              extended s r c (missing r),
              extended-IsReadingBody p s r c (missing r) v (omega (arith, h, has)) (omega arith),
            )))
    | inr h ↦ subst (RoundKeeps (NegativeRound p s c n)) (sym (round_more p s r c n v has h)) (
      inr (
        extended s r c (missing r),
        extended-IsReadingBody p s r c (missing r) v (omega (arith, h, has)) (omega arith),
      ),
      omega (arith, h),
      omega (arith, h, has),
    )
  ]

  round_keeps :
      (s : Session) (c n : ℕ)
      → IsOpen s
      → c + n ≤ length s.buffer
      → RoundKeeps (NegativeRound p s c n) (round p s c n)
  round_keeps s c n (inl v) has = head_keeps s c n v has
  round_keeps s c n (inr (r, v)) has = body_keeps s r c n v has

  after-Keeps :
      {F G : Type 0} (fs : List Effect) (o : Outcome) → (F → G) → Keeps F o → Keeps G (after fs o)
  after-Keeps fs (returned t gs) f h = h
  after-Keeps fs (spinning t gs) f h = h
  after-Keeps fs (fault gs) f h = f h

  follow-Keeps :
      (loop : Session → ℕ → ℕ → Outcome) (s : Session) (c n : ℕ) (m : Round)
      → ((s : Session) (c n : ℕ)
          → IsOpen s
          → c + n ≤ length s.buffer
          → Keeps (MeetsNegative p s c n) (loop s c n))
      → round p s c n ≡ m
      → RoundKeeps (NegativeRound p s c n) m
      → Keeps (MeetsNegative p s c n) (follow loop m)
  unfolding follow
  follow-Keeps loop s c n (leave t es) ih e k = k
  follow-Keeps loop s c n (again t c' n' es) ih e k =
      after-Keeps es (loop t c' n') (later e) (ih t c' n' k.0 k.2)
  follow-Keeps loop s c n crash ih e k = now k

  pub read_loop-Keeps :
      (fuel : ℕ) (s : Session) (c n : ℕ)
      → IsOpen s
      → c + n ≤ length s.buffer
      → Keeps (MeetsNegative p s c n) (read_loop p fuel s c n)
  unfolding read_loop
  read_loop-Keeps zero s c n v has = v
  read_loop-Keeps (suc fuel) s c n v has = elim (Bool-cases (ltb 0 n)) [
    | inl more ↦ rw more (
        follow-Keeps (read_loop p fuel) s c n (round p s c n) (read_loop-Keeps fuel) refl
          (round_keeps s c n v has))
    | inr stop ↦ rw stop v
  ]
