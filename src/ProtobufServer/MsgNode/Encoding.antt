-- ===== src/ProtobufServer/MsgNode/Encoding.antt =====
-- What a node puts on the wire.
use boost_learn.Base.{
  ℕ, ◌+◌, ◌<◌, ◌≡◌, ap, ◌∙◌, List, ◌++◌, some, arith, length, take, set, take-set, take_all, lt→leb,
}
use boost_learn.Memory.{overwrite, memcpy-overwrite, length-overwrite, take-overwrite}
use boost_learn.Platform.{Platform}
use boost_learn.AsyncServer.MsgNode.{MsgNode}
use boost_learn.AsyncServer.MsgNode.Encoding.{network_bytes}
use boost_learn.ProtobufServer.MsgNode.{send_node}

-- The bytes that `async_write` is given: `asio::buffer(_data, _max_len)`.
abbrev pub wire : MsgNode → List ℕ
wire n = take n.max_len n.chars

-- A length and a body.
abbrev pub frame : List ℕ → List ℕ
frame body = network_bytes (length body) ++ body

module _ (p : Platform) (msg : List ℕ) (short : length msg < 32768) where
  abbrev len : ℕ
  len = length msg

  abbrev chars₀ : List ℕ
  chars₀ = p.new_char (len + 2 + 1)

  abbrev chars₁ : List ℕ
  chars₁ = overwrite chars₀ 0 (network_bytes len) 0 2

  abbrev chars₂ : List ℕ
  chars₂ = overwrite chars₁ 2 msg 0 len

  abbrev pub sent : MsgNode
  sent = record { cur_len = 0; max_len = len + 2; chars = set chars₂ (len + 2) 0 }

  room₀ : length chars₀ ≡ len + 3
  room₀ = omega (arith, p.length-new_char (len + 2 + 1))

  room₁ : length chars₁ ≡ len + 3
  room₁ =
      length-overwrite chars₀ 0 (network_bytes len) 0 2 (omega (arith, room₀)) (omega arith) ∙ room₀

  pub send_node-eq : send_node p msg len ≡ some sent
  unfolding send_node
  send_node-eq = rw (
    lt→leb 32768 len short,
    p.store_network len (omega arith),
    memcpy-overwrite chars₀ 0 (network_bytes len) 0 2 (omega (arith, room₀)) (omega arith),
    memcpy-overwrite chars₁ 2 msg 0 len (omega (arith, room₁)) (omega arith),
  )

  pub wire-sent : wire sent ≡ frame msg
  wire-sent =
      take-set chars₂ (len + 2) 0
      ∙ (ap (λ k. take k chars₂) (omega arith)
          ∙ (take-overwrite chars₁ 2 msg 0 len (omega (arith, room₁)) (omega arith)
              ∙ (ap (λ t. t ++ take len msg)
                    (take-overwrite chars₀ 0 (network_bytes len) 0 2 (omega (arith, room₀))
                      (omega arith))
                  ∙ ap (λ t. network_bytes len ++ t) (take_all len msg (omega arith)))))
