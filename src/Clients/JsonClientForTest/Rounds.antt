-- ===== src/Clients/JsonClientForTest/Rounds.antt =====
-- A thread of the client, with a server that answers.
use boost_learn.Base.{
  ℕ, ◌≤◌, ◌≡◌, refl, ap, ◌∙◌, List, [], ◌∷◌, ◌++◌, some, sym, lt→leb, arith, length, map,
  append_assoc, All,
}
use boost_learn.Platform.{Platform, to_short, IsShort}
use boost_learn.AsyncServer.Session.Decode.{Message}
use boost_learn.AsyncServer.Session.Stream.{encode, encode_head, encode_all}
use boost_learn.CoroutineService.Socket.{Socket}
use boost_learn.Clients.JsonClient
use boost_learn.Clients.JsonClient.{read_reply}
use boost_learn.Clients.JsonClient.Exchange.{send_data-encode, read_reply-encode}
use boost_learn.Clients.JsonClientForTest.{send_data, Round, rounds, run}

-- For a request that the array has room for, the two clients send the same.
pub send_data-same :
    (p : Platform) (request : List ℕ)
    → length request ≤ 2044
    → send_data p request ≡ JsonClient.send_data p request
unfolding send_data JsonClient.send_data
send_data-same p request fits =
    let len = length request in
    let small : to_short len ≡ len = omega arith in rw (small, lt→leb 32768 len (omega arith)) refl

module _ (sock : Socket) (p : Platform) (request : List ℕ) (fits : length request ≤ 2044) where
  -- The answers that come, of an id that is a short and a text of at most 2048 bytes.
  abbrev pub IsAnswer : Message → Type 0
  IsAnswer m = IsShort m.msg_id × (length m.body ≤ 2048)

  abbrev request_bytes : List ℕ
  request_bytes = encode (record { msg_id = 1001; body = request })

  abbrev pub round_of : Message → Round
  round_of m = record { sent = request_bytes; id = m.msg_id; text = m.body }

  rounds-encode_all :
      (answers : List Message) (st : sock.State) (rest : List ℕ)
      → All IsAnswer answers
      → sock.bytes st ≡ encode_all answers ++ rest
      → (st' : sock.State) × (rounds sock p request (length answers) st
          ≡ some (map round_of answers, st'))
        × (sock.bytes st' ≡ rest)
  unfolding rounds encode_all
  rounds-encode_all [] st rest a e = (st, refl, e)
  rounds-encode_all (m ∷ ms) st rest (a, as') e =
      let sends : send_data p request ≡ some request_bytes =
        send_data-same p request fits ∙ send_data-encode p request fits in
      let (st', read, left) =
        read_reply-encode sock p st m.msg_id m.body (encode_all ms ++ rest) a.0 a.1 (
          e
          ∙ (append_assoc (encode m) (encode_all ms) rest
              ∙ append_assoc (encode_head m.msg_id (length m.body)) m.body
                  (encode_all ms ++ rest))) in
      let (st'', later, left') = rounds-encode_all ms st' rest as' left in
      (st'', rw (sends, read, later) refl, left')

  -- A server that answers 500 times: a thread sends its request 500 times, and reads the id and the
  -- text of each answer, in order, and nothing behind them.
  pub run-encode_all :
      (answers : List Message) (st : sock.State) (rest : List ℕ)
      → length answers ≡ 500
      → All IsAnswer answers
      → sock.bytes st ≡ encode_all answers ++ rest
      → (st' : sock.State) × (run sock p request st ≡ some (map round_of answers, st'))
        × (sock.bytes st' ≡ rest)
  unfolding run
  run-encode_all answers st rest size a e =
      let (st', done, left) = rounds-encode_all answers st rest a e in
      (st', ap (λ k. rounds sock p request k st) (sym size) ∙ done, left)
