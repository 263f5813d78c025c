-- ===== src/AsyncServer/Session/Delivery.antt =====
-- What a client of the send queue sees: messages go out whole, one at a time, in the order in which
-- they were taken, and until a write fails the oldest one is always under way.
use boost_learn.Base.{
  ℕ, suc, ◌≤◌, ◌<◌, ◌≡◌, refl, sym, ap, ◌∙◌, subst, List, [], ◌∷◌, ◌++◌, true, false, Option, some,
  arith, map, length, take, length-take, All, lt→ltb, le→ltb, lt_cases, inl, inr, ◌/◌, ◌%◌,
}
use boost_learn.Platform.{Platform, IsShort}
use boost_learn.AsyncServer.MsgNode.{SendNode, ◌>>=◌}
use boost_learn.AsyncServer.MsgNode.Encoding.{sent, send_node-eq, wire, wire-sent}
use boost_learn.AsyncServer.Session.{Session}
use boost_learn.AsyncServer.Session.Stream.{encode}
use boost_learn.AsyncServer.Session.Sending.{send, handle_write}
use boost_learn.AsyncServer.Session.Link.{Link, Op, sends, completes, fails, act, run}
use boost_learn.AsyncServer.Session.Outbox.{
  Outbox, outbox_step, outbox_run, outbox, live, dead, InOrder, is_live, is_dead, OpFits,
}

abbrev Refined : Option Link → Outbox → Type 0
Refined o b = (l : Link) × (o ≡ some l) × InOrder l × (outbox l ≡ b)

pub length-wires : (q : List SendNode) → length (map wire q) ≡ length q
length-wires [] = refl
length-wires (n ∷ q) = ap suc (length-wires q)

wires-append :
    (q : List SendNode) (n : SendNode) → map wire (q ++ n ∷ []) ≡ map wire q ++ wire n ∷ []
wires-append [] n = refl
wires-append (m ∷ q) n = ap (λ t. wire m ∷ t) (wires-append q n)

module _ (p : Platform) (s : Session) (w : List SendNode) (msg : List ℕ) (len msg_id : ℕ)
    (short : IsShort msg_id) (fits : len ≤ 32763) (has : len ≤ length msg) where
  abbrev node : SendNode
  node = sent p msg len msg_id short fits has

  abbrev frame : List ℕ
  frame = encode (record { msg_id = msg_id; body = take len msg })

  wire-node : wire node ≡ frame
  wire-node =
      let size : len ≡ length (take len msg) = omega (arith, has, length-take len msg) in
      wire-sent p msg len msg_id short fits has
      ∙ ap (λ k. msg_id / 256 ∷ msg_id % 256 ∷ k / 256 ∷ k % 256 ∷ take len msg) size

  wires-node : (q : List SendNode) → map wire (q ++ node ∷ []) ≡ map wire q ++ frame ∷ []
  wires-node q = wires-append q node ∙ ap (λ t. map wire q ++ t ∷ []) wire-node

  abbrev op : Op
  op = sends msg len msg_id

  send_idle : act p (live s w []) op ≡ some (live (record s { send_pending = false }) w (node ∷ []))
  unfolding act send
  send_idle = rw (send_node-eq p msg len msg_id short fits has)

  -- Behind another node: it waits, if there is room.
  send_room :
      (l : Link) (x : SendNode) (q : List SendNode)
      → length q < 1000
      → l.session.send_queue ≡ x ∷ q
      → act p l op
        ≡ some (record l {
          session = record l.session { send_queue = (x ∷ q) ++ node ∷ []; send_pending = true };
        })
  unfolding act send
  send_room l x q h e = simp (
    e,
    le→ltb 1000 (suc (length q)) (omega (arith, h)),
    lt→ltb 0 (suc (length q)) (omega arith),
    send_node-eq p msg len msg_id short fits has,
  )

  send_full :
      (l : Link) (x : SendNode) (q : List SendNode)
      → 1000 ≤ length q
      → l.session.send_queue ≡ x ∷ q
      → act p l op ≡ some (record l { session = record l.session { send_pending = false } })
  unfolding act send
  send_full l x q h e = simp (e, lt→ltb 1000 (suc (length q)) (omega (arith, h)))

  -- The same for the frames: there is room for 1001.
  outbox_room :
      (b : Outbox)
      → length b.waiting ≤ 1000
      → outbox_step b op ≡ record b { waiting = b.waiting ++ frame ∷ [] }
  unfolding outbox_step
  outbox_room b h = rw (le→ltb 1000 (length b.waiting) h)

  outbox_full : (b : Outbox) → 1000 < length b.waiting → outbox_step b op ≡ b
  unfolding outbox_step
  outbox_full b h = rw (lt→ltb 1000 (length b.waiting) h)

  -- A queue that is not empty, on a live link or a dead one.
  busy_refines :
      (l : Link) (x : SendNode) (q : List SendNode)
      → l.session.send_queue ≡ x ∷ q
      → ((s' : Session) (r : List SendNode)
          → InOrder (record l { session = record s' { send_queue = x ∷ r } }))
      → Refined (act p l op) (outbox_step (outbox l) op)
  busy_refines l x q e keep =
      let size = length-wires (x ∷ q) in
      let queue = ap (map wire) e in
      elim (lt_cases (length q) 1000) [
        | inl h ↦ (
          record l {
            session = record l.session { send_queue = (x ∷ q) ++ node ∷ []; send_pending = true };
          },
          send_room l x q h e,
          keep (record l.session { send_pending = true }) (q ++ node ∷ []),
          ap (λ t. record (outbox l) { waiting = t })
                (wires-node (x ∷ q) ∙ ap (λ t. t ++ frame ∷ []) (sym queue))
              ∙ sym (outbox_room (outbox l) (omega (arith, h, size, ap length queue))),
        )
        | inr h ↦ (
          record l { session = record l.session { send_pending = false } },
          send_full l x q h e,
          subst
              (λ t.
                InOrder (record l {
                  session = record l.session { send_pending = false; send_queue = t };
                }))
              (sym e) (keep (record l.session { send_pending = false }) q),
          sym (outbox_full (outbox l) (omega (arith, h, size, ap length queue))),
        )
      ]

  live_send_refines :
      (q : List SendNode) → Refined (act p (live s w q) op) (outbox_step (outbox (live s w q)) op)
  live_send_refines [] = (
    live (record s { send_pending = false }) w (node ∷ []),
    send_idle,
    is_live (record s { send_pending = false }) w (node ∷ []) refl,
    ap (λ t. record { waiting = t; done = map wire w; lost = false }) (wires-node [])
        ∙ sym (outbox_room (outbox (live s w [])) (omega arith)),
  )
  live_send_refines (x ∷ q) =
      busy_refines (live s w (x ∷ q)) x q refl (λ s' r. is_live s' w (x ∷ r) refl)

  dead_send_refines :
      (x : SendNode) (q : List SendNode)
      → Refined (act p (dead s w x q) op) (outbox_step (outbox (dead s w x q)) op)
  dead_send_refines x q = busy_refines (dead s w x q) x q refl (λ s' r. is_dead s' w x r refl)

module _ (p : Platform) (s : Session) (w : List SendNode) where
  live_complete :
      (q : List SendNode)
      → Refined (act p (live s w q) completes) (outbox_step (outbox (live s w q)) completes)
  unfolding act handle_write outbox_step
  live_complete [] = (live s w [], refl, is_live s w [] refl, refl)
  live_complete (x ∷ []) = (
    live s (w ++ x ∷ []) [],
    refl,
    is_live s (w ++ x ∷ []) [] refl,
    ap (λ t. record { waiting = map wire []; done = t; lost = false }) (wires-append w x),
  )
  live_complete (x ∷ y ∷ q) = (
    live s (w ++ x ∷ []) (y ∷ q),
    rw (lt→ltb 0 (suc (length q)) (omega arith)),
    is_live s (w ++ x ∷ []) (y ∷ q) refl,
    ap (λ t. record { waiting = map wire (y ∷ q); done = t; lost = false }) (wires-append w x),
  )

  live_fail :
      (q : List SendNode)
      → Refined (act p (live s w q) fails) (outbox_step (outbox (live s w q)) fails)
  unfolding act handle_write outbox_step
  live_fail [] = (live s w [], refl, is_live s w [] refl, refl)
  live_fail (x ∷ q) = (dead s w x q, refl, is_dead s w x q refl, refl)

  dead_end :
      (x : SendNode) (q : List SendNode)
      → Refined (act p (dead s w x q) completes) (outbox_step (outbox (dead s w x q)) completes)
        × Refined (act p (dead s w x q) fails) (outbox_step (outbox (dead s w x q)) fails)
  unfolding act outbox_step
  dead_end x q = (
    (dead s w x q, refl, is_dead s w x q refl, refl),
    (dead s w x q, refl, is_dead s w x q refl, refl),
  )

act_of_shape :
    (p : Platform) (l : Link) (op : Op)
    → InOrder l
    → OpFits op
    → Refined (act p l op) (outbox_step (outbox l) op)
act_of_shape p l (sends msg len msg_id) (is_live s w q e) f =
    subst
      (λ t.
        Refined (act p t (sends msg len msg_id)) (outbox_step (outbox t) (sends msg len msg_id)))
      (sym e) (live_send_refines p s w msg len msg_id f.0 f.1 f.2 q)
act_of_shape p l (sends msg len msg_id) (is_dead s w x q e) f =
    subst
      (λ t.
        Refined (act p t (sends msg len msg_id)) (outbox_step (outbox t) (sends msg len msg_id)))
      (sym e) (dead_send_refines p s w msg len msg_id f.0 f.1 f.2 x q)
act_of_shape p l completes (is_live s w q e) f =
    subst (λ t. Refined (act p t completes) (outbox_step (outbox t) completes)) (sym e)
      (live_complete p s w q)
act_of_shape p l completes (is_dead s w x q e) f =
    subst (λ t. Refined (act p t completes) (outbox_step (outbox t) completes)) (sym e)
      (dead_end p s w x q).0
act_of_shape p l fails (is_live s w q e) f =
    subst (λ t. Refined (act p t fails) (outbox_step (outbox t) fails)) (sym e) (live_fail p s w q)
act_of_shape p l fails (is_dead s w x q e) f =
    subst (λ t. Refined (act p t fails) (outbox_step (outbox t) fails)) (sym e)
      (dead_end p s w x q).1

-- Whatever is sent and however the writes end, if each message fits a node, then no call faults,
-- the link stays in order (its oldest node is in flight until a write fails, and nothing is after
-- that), and the frames that wait and those that are out are those of the outbox.
pub run_refines :
    (p : Platform) (l : Link) (ops : List Op)
    → InOrder l
    → All OpFits ops
    → (l' : Link) × (run p l ops ≡ some l') × InOrder l' × (outbox l' ≡ outbox_run (outbox l) ops)
unfolding run outbox_run
run_refines p l [] o f = (l, refl, o, refl)
run_refines p l (op ∷ ops) o (f, fs) =
    let (l₁, e₁, o₁, b₁) = act_of_shape p l op o f in
    let (l₂, e₂, o₂, b₂) = run_refines p l₁ ops o₁ fs in
    (l₂, ap (λ t. t >>= λ k. run p k ops) e₁ ∙ e₂, o₂, b₂ ∙ ap (λ t. outbox_run t ops) b₁)
