-- ===== src/AsyncServer/Session/Order.antt =====
-- The order of what goes out: as long as no message is dropped, the frames that are out and those
-- that wait are, one behind the other, the messages sent.
use boost_learn.Base.{
  ℕ, ◌+◌, ◌≤◌, ◌≡◌, refl, sym, ap, ◌∙◌, List, [], ◌∷◌, ◌++◌, Bool, true, false, some, arith,
  if◌then◌else◌, length, length-append, take, All, append_assoc, lt→ltb, le→ltb, lt_cases, inl, inr,
  append-nil,
}
use boost_learn.Platform.{Platform}
use boost_learn.AsyncServer.Session.Stream.{encode}
use boost_learn.AsyncServer.Session.Link.{Link, Op, sends, completes, fails, run}
use boost_learn.AsyncServer.Session.Delivery.{run_refines, length-wires}
use boost_learn.AsyncServer.Session.Outbox.{
  Outbox, complete, lose, outbox_step, outbox_run, outbox, InOrder, OpFits,
}

-- The frames of the messages that are sent.
unfoldable pub frames : List Op → List (List ℕ)
frames [] = []
frames (sends msg len msg_id ∷ ops) =
    encode (record { msg_id = msg_id; body = take len msg }) ∷ frames ops
frames (completes ∷ ops) = frames ops
frames (fails ∷ ops) = frames ops

abbrev pub history : Outbox → List (List ℕ)
history b = b.done ++ b.waiting

-- The end of a write moves a frame at most.
abbrev Moves : Outbox → Outbox → Type 0
Moves b c = (history c ≡ history b) × (length c.waiting ≤ length b.waiting)

complete-Moves : (b : Outbox) (ws : List (List ℕ)) → b.waiting ≡ ws → Moves b (complete b ws)
complete-Moves b [] e = (refl, omega arith)
complete-Moves b (f ∷ fs) e =
    (append_assoc b.done (f ∷ []) fs ∙ ap (λ t. b.done ++ t) (sym e), omega (arith, ap length e))

lose-Moves : (b : Outbox) (ws : List (List ℕ)) → Moves b (lose b ws)
lose-Moves b [] = (refl, omega arith)
lose-Moves b (f ∷ fs) = (refl, omega arith)

unless_lost : (lost : Bool) (b c : Outbox) → Moves b c → Moves b (if lost then b else c)
unless_lost true b c m = (refl, omega arith)
unless_lost false b c m = m

complete-step_Moves : (b : Outbox) → Moves b (outbox_step b completes)
unfolding outbox_step
complete-step_Moves b =
    unless_lost b.lost b (complete b b.waiting) (complete-Moves b b.waiting refl)

fail-step_Moves : (b : Outbox) → Moves b (outbox_step b fails)
unfolding outbox_step
fail-step_Moves b = unless_lost b.lost b (lose b b.waiting) (lose-Moves b b.waiting)

history-outbox_run :
    (b : Outbox) (ops : List Op)
    → length b.waiting + length (frames ops) ≤ 1001
    → history (outbox_run b ops) ≡ history b ++ frames ops
unfolding outbox_run frames
history-outbox_run b [] h = sym (append-nil (history b))
history-outbox_run b (sends msg len msg_id ∷ ops) h =
    let frame = encode (record { msg_id = msg_id; body = take len msg }) in
    let b' : Outbox = record b { waiting = b.waiting ++ frame ∷ [] } in
    ap (λ t. history (outbox_run t ops))
      (ap (λ t. if t then b else b') (le→ltb 1000 (length b.waiting) (omega (arith, h))))
    ∙ (history-outbox_run b' ops (omega (arith, h, length-append b.waiting (frame ∷ [])))
        ∙ (ap (λ t. t ++ frames ops) (sym (append_assoc b.done b.waiting (frame ∷ [])))
            ∙ append_assoc (history b) (frame ∷ []) (frames ops)))
history-outbox_run b (completes ∷ ops) h =
    let m = complete-step_Moves b in
    history-outbox_run (outbox_step b completes) ops (omega (arith, h, m.1))
    ∙ ap (λ t. t ++ frames ops) m.0
history-outbox_run b (fails ∷ ops) h =
    let m = fail-step_Moves b in
    history-outbox_run (outbox_step b fails) ops (omega (arith, h, m.1))
    ∙ ap (λ t. t ++ frames ops) m.0

-- If each message fits a node, and no more are sent than there is room for, then no call faults,
-- and behind what the socket had taken and what had waited before, the frames of the messages
-- stand in the order in which they were sent: none is lost, doubled or mixed with another.
pub history-run :
    (p : Platform) (l : Link) (ops : List Op)
    → InOrder l
    → All OpFits ops
    → length (outbox l).waiting + length (frames ops) ≤ 1001
    → (l' : Link) × (run p l ops ≡ some l')
      × (history (outbox l') ≡ history (outbox l) ++ frames ops)
history-run p l ops o f h =
    let (l', e, o', b) = run_refines p l ops o f in
    (l', e, ap history b ∙ history-outbox_run (outbox l) ops h)

outbox_step_bounded :
    (b : Outbox) (op : Op) → length b.waiting ≤ 1001 → length (outbox_step b op).waiting ≤ 1001
unfolding outbox_step
outbox_step_bounded b (sends msg len msg_id) h = elim (lt_cases 1000 (length b.waiting)) [
  | inl full ↦ rw (lt→ltb 1000 (length b.waiting) full) h
  | inr room ↦ rw (le→ltb 1000 (length b.waiting) room) (
      omega (
        arith,
        room,
        length-append b.waiting (encode (record { msg_id = msg_id; body = take len msg }) ∷ []),
      ))
]
outbox_step_bounded b completes h = omega (arith, h, (complete-step_Moves b).1)
outbox_step_bounded b fails h = omega (arith, h, (fail-step_Moves b).1)

outbox_run_bounded :
    (b : Outbox) (ops : List Op)
    → length b.waiting ≤ 1001
    → length (outbox_run b ops).waiting ≤ 1001
unfolding outbox_run
outbox_run_bounded b [] h = h
outbox_run_bounded b (op ∷ ops) h =
    outbox_run_bounded (outbox_step b op) ops (outbox_step_bounded b op h)

-- The queue never holds more than 1001 nodes, one more than `MAX_SENDQUE`.
pub run_bounded :
    (p : Platform) (l : Link) (ops : List Op)
    → InOrder l
    → All OpFits ops
    → length l.session.send_queue ≤ 1001
    → (l' : Link) × (run p l ops ≡ some l') × (length l'.session.send_queue ≤ 1001)
run_bounded p l ops o f h =
    let (l', e, o', b) = run_refines p l ops o f in
    let bound =
      outbox_run_bounded (outbox l) ops (omega (arith, h, length-wires l.session.send_queue)) in
    (l', e, omega (arith, bound, length-wires l'.session.send_queue, ap (λ t. length t.waiting) b))
