-- ===== src/Clients/ProtobufClient/Server.antt =====
-- The request of the client at the server of AsyncServer_useProtobuf, and its answer at the client.
use boost_learn.Base.{
  ℕ, ◌+◌, ◌*◌, ◌/◌, ◌%◌, ◌≤◌, ◌≡◌, refl, sym, ap, ap₂, ◌∙◌, List, [], ◌∷◌, ◌++◌, Bool, false,
  Option, some, arith, length, take, take_all, window, window-append, length-append, lt→leb,
  append_assoc, append-nil, map,
}
use boost_learn.Memory.{overwrite, memcpy-overwrite, length-overwrite, take-overwrite}
use boost_learn.Platform.{Platform, to_short}
use boost_learn.AsyncServer.MsgNode.{MsgNode}
use boost_learn.AsyncServer.MsgNode.Encoding.{network_bytes}
use boost_learn.CoroutineService.Socket.{Socket}
use boost_learn.CoroutineService.Socket.Bytes.{received}
use boost_learn.ProtobufServer.Message.{MsgData, reply}
use boost_learn.ProtobufServer.MsgNode.Encoding.{frame, wire}
use boost_learn.ProtobufServer.Session.{handle_read}
use boost_learn.ProtobufServer.Session.Whole.{at_head}
use boost_learn.ProtobufServer.Session.Frames.{frames}
use boost_learn.ProtobufServer.Session.Replies.{Replied, handle_read-frames}
use boost_learn.Clients.Stack.{zeros, length-zeros, text_copied}
use boost_learn.Clients.ProtobufClient.{send_data, read_reply}

module _ (p : Platform) (request : List ℕ) (fits : length request ≤ 2046) where
  abbrev len : ℕ
  len = length request

  abbrev chars₁ : List ℕ
  chars₁ = overwrite zeros 0 (network_bytes len) 0 2

  room₁ : length chars₁ ≡ 2048
  room₁ =
      length-overwrite zeros 0 (network_bytes len) 0 2 (omega (arith, length-zeros)) (omega arith)
      ∙ length-zeros

  filled : take (len + 2) (overwrite chars₁ 2 request 0 len) ≡ frame request
  filled =
      ap (λ k. take k (overwrite chars₁ 2 request 0 len)) (omega arith)
      ∙ (take-overwrite chars₁ 2 request 0 len (omega (arith, room₁)) (omega arith)
          ∙ ap₂ (λ a b. a ++ b)
              (take-overwrite zeros 0 (network_bytes len) 0 2 (omega (arith, length-zeros))
                (omega arith))
              (take_all len request (omega arith)))

  send_data-frame : send_data p request ≡ some (frame request)
  unfolding send_data
  send_data-frame =
      let small : to_short len ≡ len = omega arith in
      rw (
        small,
        p.store_network len (omega arith),
        memcpy-overwrite zeros 0 (network_bytes len) 0 2 (omega (arith, length-zeros))
            (omega arith),
        lt→leb 32768 len (omega arith),
        memcpy-overwrite chars₁ 2 request 0 len (omega (arith, room₁)) (omega arith),
        filled,
      )

read_reply-frame :
    (sock : Socket) (p : Platform) (st : sock.State) (text rest : List ℕ)
    → length text ≤ 2048
    → sock.bytes st ≡ frame text ++ rest
    → (st' : sock.State) × (read_reply sock p st ≡ some (text, st')) × (sock.bytes st' ≡ rest)
unfolding read_reply
read_reply-frame sock p st text rest fits e =
    let n = length text in
    let (st', got, left) =
      sock.async_read_whole st 2 (network_bytes n) (text ++ rest)
        (e ∙ append_assoc (network_bytes n) text rest) refl in
    let (st'', got', left') = sock.async_read_whole st' n text rest left refl in
    let len_back : n / 256 * 256 + n % 256 ≡ n = omega arith in
    (
      st'',
      rw (
        got,
        p.load_network (n / 256) (n % 256) (omega arith) (omega arith),
        len_back,
        lt→leb 32768 n (omega arith),
        got',
        memcpy-overwrite zeros 0 text 0 n (omega (arith, length-zeros)) (omega arith),
        text_copied text fits,
      ),
      left',
    )

unfoldable pub joined : List (List ℕ) → List ℕ
joined [] = []
joined (bs ∷ rest) = bs ++ joined rest

-- What the two programs do, from the request to the end of the reply.
pub record Exchanged (proto : MsgData) (p : Platform) (uuid : ℕ) (chars rest : List ℕ)
    (recv : Option MsgNode) (pending : Bool) (request more : List ℕ) : Type 0 where
  pub sent : List ℕ
  pub sends : send_data p request ≡ some sent
  pub answered :
      Replied proto p uuid
        (sent ++ rest)
        (handle_read proto p 1
          (at_head uuid chars recv (sent ++ rest) [] pending)
          false
          (length sent))
        []
        (request ∷ [])
  pub reads :
      read_reply received p (joined (map wire answered.replies) ++ more)
      ≡ some (reply proto request, more)

-- A request of at most 2046 bytes, with a reply of at most 2048: the client sends its length and its
-- bytes. When they come to the session in one read, between messages and with an empty queue, the
-- session answers with one node and waits for more; and from what the node puts on the wire the client
-- reads the text of the reply, and no byte behind it.
pub request_replied :
    (proto : MsgData) (p : Platform) (uuid : ℕ) (chars rest : List ℕ) (recv : Option MsgNode)
    (pending : Bool) (request more : List ℕ)
    → length chars ≡ 3
    → length request ≤ 2046
    → length (reply proto request) ≤ 2048
    → Exchanged proto p uuid chars rest recv pending request more
unfolding joined frames
request_replied proto p uuid chars rest recv pending request more size fits small =
    let r = reply proto request in
    let bytes = frame request in
    let whole : window (bytes ++ rest) 0 (length bytes) ≡ bytes ++ [] =
      window-append bytes rest ∙ sym (append-nil bytes) in
    let answered =
      handle_read-frames proto p uuid (bytes ++ rest) chars recv [] pending (length bytes) 1 request
        [] size (omega (arith, length-append bytes rest)) whole
        ((omega (arith, fits), omega (arith, small)), tt) (omega arith) (omega arith) in
    let came : joined (map wire answered.replies) ++ more ≡ frame r ++ more =
      ap (λ t. joined t ++ more) answered.wires ∙ ap (λ t. t ++ more) (append-nil (frame r)) in
    let (st, read, left) =
      read_reply-frame received p (joined (map wire answered.replies) ++ more) r more small came in
    record {
      sent = bytes;
      sends = send_data-frame p request fits;
      answered = answered;
      reads = read ∙ ap (λ t. some (r, t)) left;
    }
