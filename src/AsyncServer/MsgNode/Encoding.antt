-- ===== src/AsyncServer/MsgNode/Encoding.antt =====
-- `SendNode`: what it puts on the wire, and the lengths that it cannot take.
use boost_learn.Base.{
  ℕ, ◌+◌, ◌/◌, ◌%◌, ◌≤◌, ◌<◌, ◌≡◌, ap, ◌∙◌, List, [], ◌∷◌, ◌++◌, none, some, arith, Bool-cases, inl,
  inr, length, take, lt→leb, leb→lt,
}
use boost_learn.Memory.{
  overwrite, memcpy-overwrite, length-overwrite, take-overwrite, memcpy_cases, memcpy_too_long,
}
use boost_learn.Platform.{Platform, IsShort, to_short, is_negative}
use boost_learn.AsyncServer.MsgNode.{MsgNode, SendNode, send_node, bytes_of_short, fill_node}
use boost_learn.AsyncServer.MsgNode.Contents.{fresh_node, fresh_node-IsValid}

-- An id or a length in network order.
abbrev pub network_bytes : ℕ → List ℕ
network_bytes v = v / 256 ∷ v % 256 ∷ []

bytes_of_short-network :
    (p : Platform) (v : ℕ)
    → IsShort v
    → bytes_of_short p (p.host_to_network_short v) ≡ network_bytes v
bytes_of_short-network p v h = ap (λ t. t.0 ∷ t.1 ∷ []) (p.store_network v h)

-- The bytes that `async_write` is given: `asio::buffer(_data, _max_len)`.
abbrev pub wire : SendNode → List ℕ
wire n = take n.node.max_len n.node.chars

module _ (p : Platform) (msg : List ℕ) (msg_len msg_id : ℕ) (id_short : IsShort msg_id)
    (short : msg_len ≤ 32763) (has : msg_len ≤ length msg) where
  abbrev node₀ : MsgNode
  node₀ = fresh_node p (msg_len + 4)

  abbrev chars₁ : List ℕ
  chars₁ = overwrite node₀.chars 0 (network_bytes msg_id) 0 2

  abbrev chars₂ : List ℕ
  chars₂ = overwrite chars₁ 2 (network_bytes msg_len) 0 2

  abbrev chars₃ : List ℕ
  chars₃ = overwrite chars₂ 4 msg 0 msg_len

  abbrev pub sent : SendNode
  sent = record { node = record node₀ { chars = chars₃ }; msg_id = msg_id }

  length₀ : length node₀.chars ≡ msg_len + 5
  length₀ = omega (arith, fresh_node-IsValid p (msg_len + 4) (omega arith))

  length₁ : length chars₁ ≡ msg_len + 5
  length₁ =
      length-overwrite node₀.chars 0 (network_bytes msg_id) 0 2 (omega (arith, length₀))
        (omega arith)
      ∙ length₀

  length₂ : length chars₂ ≡ msg_len + 5
  length₂ =
      length-overwrite chars₁ 2 (network_bytes msg_len) 0 2 (omega (arith, length₁)) (omega arith)
      ∙ length₁

  pub send_node-eq : send_node p msg msg_len msg_id ≡ some sent
  unfolding send_node
  send_node-eq =
      let size : to_short (msg_len + 4) ≡ msg_len + 4 = omega arith in
      let len : to_short msg_len ≡ msg_len = omega arith in
      rw (
        size,
        len,
        lt→leb 32768 (msg_len + 4) (omega (arith, short)),
        p.store_network msg_id id_short,
        p.store_network msg_len (omega (arith, short)),
        memcpy-overwrite node₀.chars 0 (network_bytes msg_id) 0 2 (omega (arith, length₀))
            (omega arith),
        memcpy-overwrite chars₁ 2 (network_bytes msg_len) 0 2 (omega (arith, length₁))
            (omega arith),
        memcpy-overwrite chars₂ 4 msg 0 msg_len (omega (arith, length₂)) (omega (arith, has)),
      )

  pub wire-sent : wire sent ≡ network_bytes msg_id ++ (network_bytes msg_len ++ take msg_len msg)
  wire-sent =
      let four : msg_len + 4 ≡ 4 + msg_len = omega arith in
      ap (λ k. take k chars₃) four
      ∙ (take-overwrite chars₂ 4 msg 0 msg_len (omega (arith, length₂)) (omega (arith, has))
          ∙ (ap (λ t. t ++ take msg_len msg)
              (take-overwrite chars₁ 2 (network_bytes msg_len) 0 2 (omega (arith, length₁))
                  (omega arith)
                ∙ ap (λ t. t ++ network_bytes msg_len)
                    (take-overwrite node₀.chars 0 (network_bytes msg_id) 0 2
                      (omega (arith, length₀)) (omega arith)))))

-- Three copies of which the last does not fit give nothing.
fill_node_too_long :
    (p : Platform) (node : MsgNode) (msg : List ℕ) (msg_len msg_id : ℕ)
    → length node.chars < 4 + msg_len
    → fill_node p node msg msg_len msg_id ≡ none
unfolding fill_node
fill_node_too_long p node msg msg_len msg_id h =
    let b₁ = bytes_of_short p (p.host_to_network_short msg_id) in
    let b₂ = bytes_of_short p (p.host_to_network_short (to_short msg_len)) in
    elim (memcpy_cases node.chars 0 b₁ 0 2) [
      | inl e ↦ rw e
      | inr (with_id, e, l) ↦ rw e (elim (memcpy_cases with_id 2 b₂ 0 2) [
        | inl e' ↦ rw e'
        | inr (with_len, e', l') ↦
            rw (e', memcpy_too_long with_len 4 msg msg_len (omega (arith, h, l, l')))
      ])
    ]

-- A message of more than 32763 bytes: its length with the head is negative as a `short`, or has
-- lost its high bits and the copy runs past the array.
pub send_node_too_long :
    (p : Platform) (msg : List ℕ) (msg_len msg_id : ℕ)
    → 32763 < msg_len
    → send_node p msg msg_len msg_id ≡ none
unfolding send_node
send_node_too_long p msg msg_len msg_id h =
    elim (Bool-cases (is_negative (to_short (msg_len + 4)))) [
      | inl neg ↦ rw neg
      | inr pos ↦
          let m = to_short (msg_len + 4) in
          let small = leb→lt 32768 m pos in
          rw pos (
            fill_node_too_long p (fresh_node p m) msg msg_len msg_id
              (omega (arith, h, small, fresh_node-IsValid p m small)))
    ]

-- A message of at most 32763 bytes gives a node, and what is written of it to the socket is the id,
-- then the length, each with its high byte first, and then the bytes of the message.
pub send_node_lem :
    (p : Platform) (msg : List ℕ) (msg_len msg_id : ℕ)
    → IsShort msg_id
    → msg_len ≤ 32763
    → msg_len ≤ length msg
    → (n : SendNode) × (send_node p msg msg_len msg_id ≡ some n)
      × (wire n ≡ msg_id / 256 ∷ msg_id % 256 ∷ msg_len / 256 ∷ msg_len % 256 ∷ take msg_len msg)
send_node_lem p msg msg_len msg_id id_short short has = (
  sent p msg msg_len msg_id id_short short has,
  send_node-eq p msg msg_len msg_id id_short short has,
  wire-sent p msg msg_len msg_id id_short short has,
)
