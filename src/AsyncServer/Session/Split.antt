-- ===== src/AsyncServer/Session/Split.antt =====
-- One message in two reads, cut behind its head, and the read after it.
use boost_learn.Base.{
  ℕ, suc, ◌<◌, ◌≡◌, refl, sym, ap, ap₂, ◌∙◌, subst, List, [], ◌∷◌, ◌++◌, inl, inr, false, arith,
  length, replicate, All, length-append,
}
use boost_learn.Platform.{Platform, IsByte}
use boost_learn.AsyncServer.MsgNode.{RecvNode}
use boost_learn.AsyncServer.MsgNode.Contents.{contents, length-contents}
use boost_learn.AsyncServer.Session.{
  Session, Effect, async_read_some, post_msg_to_que, clear_server, Outcome, returned, spinning,
  fault, handle_read, deliver,
}
use boost_learn.AsyncServer.Session.Decode.{
  Message, ready, head, body, waiting, decode, decode_body_part,
}
use boost_learn.AsyncServer.Session.Stream.{encode_head, Fits, decode-encode_head}
use boost_learn.AsyncServer.Session.View.{
  observe, pending_of, pending_after, view_message, view_effects, IsReadingHead, pending_by,
}
use boost_learn.AsyncServer.Session.Rest.{IsReadingBody, missing}
use boost_learn.AsyncServer.Session.Invariant.{IsOpen, Keeps}
use boost_learn.AsyncServer.Session.Receive.{IsRead, handle_read_refines, handle_read-Keeps}
use boost_learn.AsyncServer.Session.Fragment.{Extends, rest_whole, full_rest_spins}

-- The session awaits the rest of a body of which `bs` has come.
pub record Holds (s : Session) (r : RecvNode) (msg_id msg_len : ℕ) (bs : List ℕ) : Type 0 where
  pub reads : IsReadingBody s r
  pub id_is : r.msg_id ≡ msg_id
  pub size_is : r.node.max_len ≡ msg_len
  pub bytes_are : contents r.node ≡ bs

-- An outcome that is seen to await the rest of a body does so, and has armed the next read only.
abbrev Awaits : Outcome → ℕ → ℕ → List ℕ → Type 0
Awaits o msg_id msg_len bs =
    (s : Session) × (r : RecvNode) × (o ≡ returned s (async_read_some ∷ []))
    × Holds s r msg_id msg_len bs

ready_only : (es : List Effect) → view_effects es ≡ ready ∷ [] → es ≡ async_read_some ∷ []
ready_only [] e = cc
ready_only (async_read_some ∷ []) e = refl
ready_only (async_read_some ∷ x ∷ es) e = cc
ready_only (post_msg_to_que r ∷ es) e = cc
ready_only (clear_server u ∷ es) e = cc

body_held :
    (s : Session) (msg_id msg_len : ℕ) (bs : List ℕ)
    → IsOpen s
    → pending_of s ≡ body msg_id msg_len bs
    → (r : RecvNode) × Holds s r msg_id msg_len bs
body_held s msg_id msg_len bs (inl v) e =
    let seen : head (contents s.recv_head_node) ≡ body msg_id msg_len bs =
      ap (λ b. pending_by b s.recv_msg_node s.recv_head_node) (sym v.at_head) ∙ e in
    absurd (cc)
body_held s msg_id msg_len bs (inr (r, v)) e =
    let seen : body r.msg_id r.node.max_len (contents r.node) ≡ body msg_id msg_len bs =
      ap₂ (λ b m. pending_by b m s.recv_head_node) (sym v.at_body) (sym v.node_is) ∙ e in
    (r, record { reads = v; id_is = cc; size_is = cc; bytes_are = cc })

await_of :
    (F : Type 0) (o : Outcome) (msg_id msg_len : ℕ) (bs : List ℕ)
    → Keeps F o
    → observe o ≡ waiting (body msg_id msg_len bs)
    → Awaits o msg_id msg_len bs
await_of F (returned s es) msg_id msg_len bs k e =
    let armed = ready_only es (ap (λ t. t.events) e) in
    let held =
      body_held s msg_id msg_len bs k (ap (pending_after s) (sym armed) ∙ ap (λ t. t.pending) e) in
    (s, held.0, ap (returned s) armed, held.1)
await_of F (spinning s es) msg_id msg_len bs k e = cc
await_of F (fault es) msg_id msg_len bs k e = cc

-- The head of a message and the first bytes of its body, and no more.
decode_start :
    (uuid fuel : ℕ) (m : Message) (start rest : List ℕ)
    → Fits m
    → m.body ≡ start ++ rest
    → 0 < length rest
    → decode uuid (suc fuel) (encode_head m.msg_id (length m.body) ++ start)
      ≡ waiting (body m.msg_id (length m.body) start)
decode_start uuid fuel m start rest f cut more =
    decode-encode_head uuid fuel m.msg_id (length m.body) start f.id_fits f.len_fits
    ∙ decode_body_part (decode uuid fuel) m.msg_id (length m.body) start
        (omega (arith, more, ap length cut, length-append start rest))

whole_message :
    {r r' : RecvNode} (m : Message) (start rest : List ℕ)
    → r.msg_id ≡ m.msg_id
    → contents r.node ≡ start
    → m.body ≡ start ++ rest
    → Extends r rest r'
    → view_message r' ≡ m
whole_message m start rest same held cut ext =
    ap₂ (λ i b. record { msg_id = i; body = b }) (ext.same_id ∙ same)
      (ext.holds ∙ (ap (λ t. t ++ rest) held ∙ sym cut))

-- A session that holds no byte of a head is given a message that fits in two reads, cut behind the
-- head and before the last byte of the body. The first call posts nothing and arms the next read;
-- the second posts the whole message, and arms the next read. The call for that read, whatever
-- bytes it brings, goes round for ever and posts the same message in every round.
pub split_message :
    (p : Platform) (fuel : ℕ) (s : Session) (m : Message) (start rest : List ℕ)
    → IsReadingHead s
    → contents s.recv_head_node ≡ []
    → Fits m
    → m.body ≡ start ++ rest
    → IsRead (encode_head m.msg_id (length m.body) ++ start)
    → IsRead rest
    → All IsByte (encode_head m.msg_id (length m.body) ++ start)
    → let first = encode_head m.msg_id (length m.body) ++ start in
      (s₁ : Session) × (s₂ : Session) × (r : RecvNode) × (handle_read p
          (suc fuel)
          (deliver s first)
          false
          (length first)
        ≡ returned s₁ (async_read_some ∷ []))
      × (handle_read p (suc fuel) (deliver s₁ rest) false (length rest)
          ≡ returned s₂ (post_msg_to_que r ∷ async_read_some ∷ []))
      × (view_message r ≡ m)
      × ((rounds : ℕ) (chunk : List ℕ)
          → IsRead chunk
          → handle_read p rounds (deliver s₂ chunk) false (length chunk)
            ≡ spinning (deliver s₂ chunk) (replicate rounds (post_msg_to_que r)))
split_message p fuel s m start rest v empty f cut i₁ i₂ bytes =
    let first = encode_head m.msg_id (length m.body) ++ start in
    let all = ap (λ t. t ++ first) empty in
    let seen =
      handle_read_refines p (suc fuel) s first v i₁ (subst (All IsByte) (sym all) bytes)
      ∙ (ap (decode s.uuid (suc fuel)) all
          ∙ decode_start s.uuid fuel m start rest f cut i₂.some_come) in
    let (s₁, r₁, e₁, h) =
      await_of _ (handle_read p (suc fuel) (deliver s first) false (length first)) m.msg_id
        (length m.body) start (handle_read-Keeps p (suc fuel) s false first (inl v) i₁.room) seen in
    let size = length-contents h.reads.node_valid in
    let gap : length rest ≡ missing r₁ =
      omega
        (arith, size, h.size_is, ap length h.bytes_are, ap length cut, length-append start rest) in
    let (s₂, r₂, e₂, reads, ext, full) = rest_whole p fuel s₁ r₁ rest h.reads i₂ gap in
    (
      s₁,
      s₂,
      r₂,
      e₁,
      e₂,
      whole_message m start rest h.id_is h.bytes_are cut ext,
      λ rounds chunk i₃. full_rest_spins p rounds s₂ r₂ chunk reads full i₃,
    )
