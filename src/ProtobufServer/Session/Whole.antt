-- ===== src/ProtobufServer/Session/Whole.antt =====
-- A round of `handle_read` over a message that has come whole.
use boost_learn.Base.{
  ℕ, suc, ◌+◌, ◌-◌, ◌/◌, ◌%◌, ◌≤◌, ◌<◌, ◌≡◌, refl, sym, ap, ◌∙◌, List, [], ◌∷◌, ◌++◌, Bool, false,
  Option, some, arith, length, take, drop, set, window, take-set, ltb, lt→ltb, le→ltb, lt→leb,
  if◌then◌else◌, length-append, length-window, window_split, take-length_append, drop-length_append,
}
use boost_learn.Memory.{overwrite, memcpy-overwrite, take-overwrite, memset_zero}
use boost_learn.Platform.{Platform, to_short}
use boost_learn.AsyncServer.MsgNode.{MsgNode, clear, ◌>>=◌}
use boost_learn.AsyncServer.MsgNode.Encoding.{network_bytes}
use boost_learn.AsyncServer.Session.{read_short}
use boost_learn.AsyncServer.Session.Stream.{not-exceeds}
use boost_learn.ProtobufServer.Message.{MsgData, reply}
use boost_learn.ProtobufServer.MsgNode.{recv_node}
use boost_learn.ProtobufServer.MsgNode.Encoding.{sent, send_node-eq}
use boost_learn.ProtobufServer.Session.{
  Session, Effect, async_write, front, send_string, append, next_round, answer, read_message,
  accept_head, read_head, round,
}

-- A session between messages.
abbrev pub at_head : ℕ → List ℕ → Option MsgNode → List ℕ → List MsgNode → Bool → Session
at_head uuid chars recv buffer q pending = record {
  uuid = uuid;
  recv_head_node = record { cur_len = 0; max_len = 2; chars = chars };
  b_head_parse = false;
  recv_msg_node = recv;
  buffer = buffer;
  send_queue = q;
  send_pending = pending;
}

-- A node is written at once when it is alone in the queue.
abbrev pub first_write : List MsgNode → MsgNode → List Effect
first_write q n = if ltb 0 (length q) then [] else async_write n ∷ []

pub front-pushed :
    (s : Session) (q : List MsgNode) (n : MsgNode)
    → ◌>>=◌ {B = Session × List Effect}
        (front (q ++ n ∷ []))
        (λ first. some (s, if ltb 0 (length q) then [] else async_write first ∷ []))
      ≡ some (s, first_write q n)
front-pushed s [] n = refl
front-pushed s (x ∷ q) n = rw (lt→ltb 0 (suc (length q)) (omega arith))

pub send_string-eq :
    (p : Platform) (s : Session) (msg : List ℕ) (short : length msg < 32768)
    → length s.send_queue ≤ 1000
    → send_string p s msg
      ≡ some (
        record s {
          send_queue = s.send_queue ++ sent p msg short ∷ [];
          send_pending = ltb 0 (length s.send_queue);
        },
        first_write s.send_queue (sent p msg short),
      )
unfolding send_string
send_string-eq p s msg short room =
    let fits : to_short (length msg) ≡ length msg = omega arith in
    rw (le→ltb 1000 (length s.send_queue) room, fits, send_node-eq p msg short)
      (front-pushed
        (record s {
          send_queue = s.send_queue ++ sent p msg short ∷ [];
          send_pending = ltb 0 (length s.send_queue);
        })
        s.send_queue (sent p msg short))

-- The first part of a window, and what is behind it.
pub window-front :
    (xs a b : List ℕ) (c n : ℕ)
    → c + n ≤ length xs
    → window xs c n ≡ a ++ b
    → (window xs c (length a) ≡ a)
      × (window xs (c + length a) (n - length a) ≡ b)
      × (n ≡ length a + length b)
window-front xs a b c n has e =
    let k = length a in
    let size : n ≡ k + length b =
      sym (length-window xs c n has) ∙ (ap length e ∙ length-append a b) in
    let part = length-window xs c k (omega (arith, has, size)) in
    let cut = sym (window_split k n c xs (omega (arith, size))) ∙ e in
    (
      sym (take-length_append (window xs c k) (window xs (c + k) (n - k)) k part)
          ∙ (ap (take k) cut ∙ take-length_append a b k refl),
      sym (drop-length_append (window xs c k) (window xs (c + k) (n - k)) k part)
          ∙ (ap (drop k) cut ∙ drop-length_append a b k refl),
      size,
    )

module _ (proto : MsgData) (p : Platform) (uuid : ℕ) (recv : Option MsgNode) (buffer : List ℕ)
    (q : List MsgNode) (pending : Bool) where
  -- The head's chars, when the head has been copied into them.
  abbrev pub head_chars : List ℕ → ℕ → List ℕ
  head_chars chars c = overwrite chars 0 buffer c 2

  read_short-head :
      (chars : List ℕ) (c len : ℕ)
      → len < 32768
      → window buffer c 2 ≡ network_bytes len
      → read_short p (head_chars chars c) 0 ≡ len
  unfolding overwrite
  read_short-head chars c len short e =
      rw e (p.load_network (len / 256) (len % 256) (omega arith) (omega arith) ∙ omega arith)

  pub read_head-whole :
      (chars : List ℕ) (c n len : ℕ)
      → length chars ≡ 3
      → 2 ≤ n
      → c + n ≤ length buffer
      → len < 32768
      → window buffer c 2 ≡ network_bytes len
      → round proto p (at_head uuid chars recv buffer q pending) c n
        ≡ accept_head proto p
            (at_head uuid (head_chars chars c) recv buffer q pending)
            len
            (c + 2)
            (n - 2)
  unfolding round read_head
  read_head-whole chars c n len size more has short e =
      rw
        (
          le→ltb (n + 0) 2 (omega arith),
          memcpy-overwrite chars 0 buffer c 2 (omega arith) (omega arith),
        )
        (ap
          (λ k.
            accept_head proto p (at_head uuid (head_chars chars c) recv buffer q pending) k (c + 2)
              (n - 2))
          (read_short-head chars c len short e))

  -- The node of a body that has been copied into it, before and behind its terminator.
  abbrev pub body_node : ℕ → List ℕ → MsgNode
  body_node c body = record {
    cur_len = 0 + length body;
    max_len = length body;
    chars = overwrite (p.new_char (length body + 1)) 0 buffer c (length body);
  }

  abbrev pub ended_node : ℕ → List ℕ → MsgNode
  ended_node c body = record (body_node c body) {
    chars = set (body_node c body).chars (length body) 0;
  }

  contents-ended :
      (c : ℕ) (body : List ℕ)
      → c + length body ≤ length buffer
      → window buffer c (length body) ≡ body
      → take (length body) (ended_node c body).chars ≡ body
  contents-ended c body has e =
      let n = length body in
      let room : 0 + n ≤ length (p.new_char (n + 1)) = omega (arith, p.length-new_char (n + 1)) in
      take-set (body_node c body).chars n 0
      ∙ (ap (λ k. take k (body_node c body).chars) (omega arith)
          ∙ (take-overwrite (p.new_char (n + 1)) 0 buffer c n room has ∙ e))

  append-body :
      (c : ℕ) (body : List ℕ)
      → c + length body ≤ length buffer
      → append
          (record { cur_len = 0; max_len = length body; chars = p.new_char (length body + 1) })
          buffer
          c
          (length body)
        ≡ some (body_node c body)
  unfolding append
  append-body c body has =
      let len = length body in
      rw (
        append,
        memcpy-overwrite (p.new_char (len + 1)) 0 buffer c len
            (omega (arith, p.length-new_char (len + 1))) has,
      )

  pub accept_head-whole :
      (chars : List ℕ) (c n : ℕ) (body : List ℕ)
      → length body ≤ n
      → length body ≤ 2048
      → c + n ≤ length buffer
      → accept_head proto p (at_head uuid chars recv buffer q pending) (length body) c n
        ≡ answer proto p
            (at_head uuid chars recv buffer q pending)
            (body_node c body)
            (c + length body)
            (n - length body)
  unfolding accept_head read_message recv_node
  accept_head-whole chars c n body more fits has =
      let len = length body in
      rw (
        not-exceeds len fits,
        lt→leb 32768 len (omega arith),
        le→ltb n len more,
        append-body c body (omega arith),
      )

  pub answer-eq :
      (chars : List ℕ) (c c' n : ℕ) (body : List ℕ) (short : length (reply proto body) < 32768)
      → c + length body ≤ length buffer
      → window buffer c (length body) ≡ body
      → length q ≤ 1000
      → answer proto p (at_head uuid chars recv buffer q pending) (body_node c body) c' n
        ≡ next_round
            (at_head uuid
              (memset_zero chars 2)
              (some (ended_node c body))
              buffer
              (q ++ sent p (reply proto body) short ∷ [])
              (ltb 0 (length q)))
            c'
            n
            (first_write q (sent p (reply proto body) short))
  unfolding answer clear
  answer-eq chars c c' n body short has e room = rw (
    contents-ended c body has e,
    send_string-eq p (at_head uuid chars (some (ended_node c body)) buffer q pending)
        (reply proto body) short room,
  )
