-- ===== src/ProtobufServer/Session/Body.antt =====
-- A session that reads a body, and the sending of the body.
use boost_learn.Base.{
  ℕ, ◌+◌, ◌≤◌, ◌<◌, ◌≡◌, sym, ap, ◌∙◌, List, [], ◌∷◌, ◌++◌, Bool, true, some, arith, length, take,
  take_all, ltb, le→ltb, length-take, le→leb,
}
use boost_learn.Memory.{overwrite, memcpy}
use boost_learn.Platform.{Platform, to_short}
use boost_learn.AsyncServer.MsgNode.{MsgNode}
use boost_learn.ProtobufServer.MsgNode.{send_node}
use boost_learn.ProtobufServer.MsgNode.Encoding.{sent, send_node-eq}
use boost_learn.ProtobufServer.Session.{Session, send}
use boost_learn.ProtobufServer.Session.Whole.{first_write, front-pushed}

-- A session that has parsed a head.
abbrev pub at_body : ℕ → MsgNode → MsgNode → List ℕ → List MsgNode → Bool → Session
at_body uuid head node buffer q pending = record {
  uuid = uuid;
  recv_head_node = head;
  b_head_parse = true;
  recv_msg_node = some node;
  buffer = buffer;
  send_queue = q;
  send_pending = pending;
}

-- A node of a body: the part that has come is within it, and its char array has one char more.
pub record IsBody (node : MsgNode) : Type 0 where
  pub within : node.cur_len ≤ node.max_len
  pub fits : node.max_len ≤ 2048
  pub room : length node.chars ≡ node.max_len + 1

-- The text of a body's node.
abbrev pub text_of : MsgNode → List ℕ
text_of node = take node.max_len node.chars

send_node-take :
    (p : Platform) (chars : List ℕ) (len : ℕ)
    → len ≤ length chars
    → send_node p chars len ≡ send_node p (take len chars) len
unfolding send_node memcpy overwrite
send_node-take p chars len h =
    let size : length (take len chars) ≡ len = omega (arith, h, length-take len chars) in
    rw (
      le→leb (0 + len) (length chars) (omega (arith, h)),
      le→leb (0 + len) (length (take len chars)) (omega (arith, size)),
      take_all len (take len chars) (omega (arith, size)),
    )

pub short_text : (node : MsgNode) → IsBody node → length (text_of node) < 32768
short_text node v = omega (arith, v.fits, length-take node.max_len node.chars)

pub send-body :
    (p : Platform) (uuid : ℕ) (head node : MsgNode) (buffer : List ℕ) (q : List MsgNode)
    (pending : Bool) (v : IsBody node)
    → length q ≤ 1000
    → send p (at_body uuid head node buffer q pending) node.chars node.max_len
      ≡ some (
        at_body uuid head node buffer
            (q ++ sent p (text_of node) (short_text node v) ∷ [])
            (ltb 0 (length q)),
        first_write q (sent p (text_of node) (short_text node v)),
      )
unfolding send
send-body p uuid head node buffer q pending v room =
    let len = node.max_len in
    let size : length (text_of node) ≡ len = omega (arith, v.room, length-take len node.chars) in
    let fits : to_short len ≡ len = omega (arith, v.fits) in
    let short = short_text node v in
    rw
      (
        le→ltb 1000 (length q) room,
        fits,
        send_node-take p node.chars len (omega (arith, v.room)),
        sym (ap (send_node p (text_of node)) size) ∙ send_node-eq p (text_of node) short,
      )
      (front-pushed
        (at_body uuid head node buffer (q ++ sent p (text_of node) short ∷ []) (ltb 0 (length q))) q
        (sent p (text_of node) short))
