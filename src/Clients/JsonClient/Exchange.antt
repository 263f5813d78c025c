-- ===== src/Clients/JsonClient/Exchange.antt =====
-- A request of the client at the server, and the answer at the client.
use boost_learn.Base.{
  ℕ, ◌+◌, ◌*◌, ◌/◌, ◌%◌, ◌≤◌, ◌≡◌, refl, ap, ap₂, ◌∙◌, List, [], ◌∷◌, ◌++◌, some, arith, length,
  take, take_all, lt→leb,
}
use boost_learn.Memory.{overwrite, memcpy-overwrite, length-overwrite, take-overwrite}
use boost_learn.Platform.{Platform, to_short, IsShort}
use boost_learn.AsyncServer.Session.Stream.{encode, encode_head}
use boost_learn.CoroutineService.Socket.{Socket}
use boost_learn.Clients.Stack.{zeros, length-zeros, text_copied}
use boost_learn.Clients.JsonClient.{send_data, read_reply}

module _ (p : Platform) (request : List ℕ) (fits : length request ≤ 2044) where
  abbrev len : ℕ
  len = length request

  abbrev chars₁ : List ℕ
  chars₁ = overwrite zeros 0 (1001 / 256 ∷ 1001 % 256 ∷ []) 0 2

  abbrev chars₂ : List ℕ
  chars₂ = overwrite chars₁ 2 (len / 256 ∷ len % 256 ∷ []) 0 2

  room₁ : length chars₁ ≡ 2048
  room₁ =
      length-overwrite zeros 0 (1001 / 256 ∷ 1001 % 256 ∷ []) 0 2 (omega (arith, length-zeros))
        (omega arith)
      ∙ length-zeros

  room₂ : length chars₂ ≡ 2048
  room₂ =
      length-overwrite chars₁ 2 (len / 256 ∷ len % 256 ∷ []) 0 2 (omega (arith, room₁))
        (omega arith)
      ∙ room₁

  front₂ : take 4 chars₂ ≡ encode_head 1001 len
  front₂ =
      take-overwrite chars₁ 2 (len / 256 ∷ len % 256 ∷ []) 0 2 (omega (arith, room₁)) (omega arith)
      ∙ ap (λ t. t ++ len / 256 ∷ len % 256 ∷ [])
          (take-overwrite zeros 0 (1001 / 256 ∷ 1001 % 256 ∷ []) 0 2 (omega (arith, length-zeros))
            (omega arith))

  filled :
      take (len + 4) (overwrite chars₂ 4 request 0 len)
      ≡ encode (record { msg_id = 1001; body = request })
  filled =
      ap (λ k. take k (overwrite chars₂ 4 request 0 len)) (omega arith)
      ∙ (take-overwrite chars₂ 4 request 0 len (omega (arith, room₂)) (omega arith)
          ∙ ap₂ (λ a b. a ++ b) front₂ (take_all len request (omega arith)))

  pub send_data-encode :
      send_data p request ≡ some (encode (record { msg_id = 1001; body = request }))
  unfolding send_data
  send_data-encode =
      let small : to_short len ≡ len = omega arith in
      rw (
        small,
        p.store_network 1001 (omega arith),
        p.store_network len (omega arith),
        memcpy-overwrite zeros 0 (1001 / 256 ∷ 1001 % 256 ∷ []) 0 2 (omega (arith, length-zeros))
            (omega arith),
        memcpy-overwrite chars₁ 2 (len / 256 ∷ len % 256 ∷ []) 0 2 (omega (arith, room₁))
            (omega arith),
        lt→leb 32768 len (omega arith),
        memcpy-overwrite chars₂ 4 request 0 len (omega (arith, room₂)) (omega arith),
        filled,
      )

-- The client reads what a message of at most 2048 bytes puts on the wire.
pub read_reply-encode :
    (sock : Socket) (p : Platform) (st : sock.State) (i : ℕ) (text rest : List ℕ)
    → IsShort i
    → length text ≤ 2048
    → sock.bytes st ≡ encode_head i (length text) ++ (text ++ rest)
    → (st' : sock.State) × (read_reply sock p st ≡ some ((i, text), st')) × (sock.bytes st' ≡ rest)
unfolding read_reply
read_reply-encode sock p st i text rest short fits e =
    let n = length text in
    let (st', got, left) = sock.async_read_whole st 4 (encode_head i n) (text ++ rest) e refl in
    let (st'', got', left') = sock.async_read_whole st' n text rest left refl in
    let id_back : i / 256 * 256 + i % 256 ≡ i = omega arith in
    let len_back : n / 256 * 256 + n % 256 ≡ n = omega arith in
    (
      st'',
      rw (
        got,
        p.load_network (i / 256) (i % 256) (omega arith) (omega arith),
        id_back,
        p.load_network (n / 256) (n % 256) (omega arith) (omega arith),
        len_back,
        lt→leb 32768 n (omega arith),
        got',
        memcpy-overwrite zeros 0 text 0 n (omega (arith, length-zeros)) (omega arith),
        text_copied text fits,
      ),
      left',
    )
