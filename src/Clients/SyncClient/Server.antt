-- ===== src/Clients/SyncClient/Server.antt =====
-- The line of the client at the server of AsyncServer_useProtobuf, on a machine that stores the low
-- byte first.
use boost_learn.Base.{
  ℕ, suc, ◌+◌, ◌*◌, ◌/◌, ◌%◌, ◌≤◌, ◌<◌, ◌≡◌, ap, ap₂, ◌∙◌, List, [], ◌∷◌, ◌++◌, Bool, true, false,
  Option, none, some, arith, length, take, window, length-append, replicate, length-replicate,
  length-take, lt→ltb,
}
use boost_learn.Memory.{
  overwrite, memcpy, memcpy-overwrite, memcpy_too_long, length-overwrite, take-overwrite,
}
use boost_learn.Platform.{Platform, exceeds}
use boost_learn.AsyncServer.MsgNode.{MsgNode}
use boost_learn.EchoServers.TestClient.{strlen}
use boost_learn.AsyncServer.MsgNode.Encoding.{network_bytes}
use boost_learn.EchoServers.Exchange.{strlen_within}
use boost_learn.ProtobufServer.Message.{MsgData}
use boost_learn.ProtobufServer.Session.{
  Session, clear_server, returned, handle_read, read_loop, follow, accept_head, round, leave,
}
use boost_learn.ProtobufServer.Session.Whole.{at_head, head_chars, read_head-whole}
use boost_learn.Clients.SyncClient.{send_data}

-- An int below 65536 in memory, the low byte first.
abbrev pub IsLowFirst : (ℕ → List ℕ) → Type 0
IsLowFirst store_int = (n : ℕ) → n < 65536 → store_int n ≡ n % 256 ∷ n / 256 ∷ 0 ∷ 0 ∷ []

module _ (store_int : ℕ → List ℕ) (low_first : IsLowFirst store_int) (request : List ℕ) where
  abbrev len : ℕ
  len = strlen request

  abbrev blank : List ℕ
  blank = replicate 1024 0

  length-blank : length blank ≡ 1024
  length-blank = length-replicate {A = ℕ} 1024 0

  abbrev with_len : List ℕ
  with_len = overwrite blank 0 (store_int len) 0 2

  abbrev pub low_head : List ℕ
  low_head = len % 256 ∷ len / 256 ∷ []

  module _ (small : len < 65536) where
    length-int : length (store_int len) ≡ 4
    length-int = ap length (low_first len small)

    length-with_len : length with_len ≡ 1024
    length-with_len =
        length-overwrite blank 0 (store_int len) 0 2 (omega (arith, length-blank))
          (omega (arith, length-int))
        ∙ length-blank

    head_copied : memcpy blank 0 (store_int len) 0 2 ≡ some with_len
    head_copied =
        memcpy-overwrite blank 0 (store_int len) 0 2 (omega (arith, length-blank))
          (omega (arith, length-int))

    -- A line of 1023 chars, which `getline` takes, is copied beyond the end of `send_data`.
    pub send_data_overrun : 1022 < len → send_data store_int request ≡ none
    unfolding send_data
    send_data_overrun over =
        rw (head_copied, memcpy_too_long with_len 2 request len (omega (arith, length-with_len)))

    filled :
        len ≤ 1022
        → take (len + 2) (overwrite with_len 2 request 0 len) ≡ low_head ++ take len request
    filled fits =
        ap (λ k. take k (overwrite with_len 2 request 0 len)) (omega arith)
        ∙ (take-overwrite with_len 2 request 0 len (omega (arith, length-with_len))
              (omega (arith, strlen_within request))
            ∙ ap (λ a. a ++ take len request)
                (take-overwrite blank 0 (store_int len) 0 2 (omega (arith, length-blank))
                    (omega (arith, length-int))
                  ∙ ap (λ t. window t 0 2) (low_first len small)))

    pub send_data-low :
        len ≤ 1022 → send_data store_int request ≡ some (low_head ++ take len request)
    unfolding send_data
    send_data-low fits = rw (
      head_copied,
      memcpy-overwrite with_len 2 request 0 len (omega (arith, length-with_len))
          (omega (arith, strlen_within request)),
      filled fits,
    )

  -- A line of 9 to 127 chars, on a machine that stores the low byte first: `main` sends the two bytes
  -- that its machine keeps of the length, and the line. When they come to the session of the protobuf
  -- server in one read, between messages, the session takes them for a length beyond 2048, is cleared
  -- from the server, and neither reads on nor answers.
  pub line_refused :
      (proto : MsgData) (p : Platform) (uuid : ℕ) (chars rest : List ℕ) (recv : Option MsgNode)
      (q : List MsgNode) (pending : Bool) (fuel : ℕ)
      → length chars ≡ 3
      → 9 ≤ len
      → len ≤ 127
      → (sent : List ℕ) × (send_data store_int request ≡ some sent)
        × (length sent ≡ len + 2)
        × ((s' : Session) × (handle_read proto p
                (suc fuel)
                (at_head uuid chars recv (sent ++ rest) q pending)
                false
                (length sent)
              ≡ returned s' (clear_server uuid ∷ [])))
  unfolding handle_read read_loop follow accept_head
  line_refused proto p uuid chars rest recv q pending fuel size long short =
      let bytes = low_head ++ take len request in
      let buffer = bytes ++ rest in
      let sized : length bytes ≡ len + 2 =
        omega (arith, length-take len request, strlen_within request) in
      let has : 0 + length bytes ≤ length buffer = omega (arith, length-append bytes rest) in
      let head : window buffer 0 2 ≡ network_bytes (len * 256) =
        ap₂ (λ a b. a ∷ b ∷ []) (omega arith) (omega arith) in
      let over : exceeds (len * 256) 2048 ≡ true = ground arith in
      let headed =
        at_head uuid (head_chars proto p uuid recv buffer q pending chars 0) recv buffer q
          pending in
      let refused : round proto p (at_head uuid chars recv buffer q pending) 0 (length bytes)
          ≡ leave headed (clear_server uuid ∷ []) =
        read_head-whole proto p uuid recv buffer q pending chars 0 (length bytes) (len * 256) size
          (omega (arith, sized)) has (omega arith) head
        ∙ rw over in
      (
        bytes,
        send_data-low (omega arith) (omega arith),
        sized,
        (
          headed,
          rw (lt→ltb 0 (length bytes) (omega (arith, sized)))
              (ap (follow (read_loop proto p fuel)) refused),
        ),
      )
