-- ===== src/AsycApi/Session/Queue.antt =====
-- `writeToSocket` and `writeAllToSocket`: the queue, the flag that should hold writes back, and the
-- callbacks.
use boost_learn.Base.{
  ◌-◌, ℕ, ◌+◌, ◌≤◌, ◌≡◌, refl, ap, ◌∙◌, List, [], ◌∷◌, ◌++◌, Bool, true, false, Option, none, some,
  arith, length, if◌then◌else◌, take, subst, take_all,
}
use boost_learn.Memory.{overwrite, memcpy-overwrite, take-overwrite}
use boost_learn.Platform.{Platform}
use boost_learn.AsycApi.MsgNode.{MsgNode, new_send_node, ◌>>=◌}
use boost_learn.AsycApi.Session.{
  Session, Effect, async_write_some, async_send, new_session, write_to_socket, write_all_to_socket,
  write_queued, write_call_back, write_all_call_back, write_next, rest_of,
}

module _ (p : Platform) where
  -- The calls on the way out, by anyone and in any order.
  pub data Step (s : Session) : Session → Type 0 where
    writes :
        (buf : List ℕ) (s' : Session) (es : List Effect)
        → write_to_socket p s buf ≡ some (s', es)
        → Step s s'
    writes_all :
        (buf : List ℕ) (s' : Session) (es : List Effect)
        → write_all_to_socket p s buf ≡ some (s', es)
        → Step s s'
    calls_back :
        (ec : Bool) (k : ℕ) (s' : Session) (es : List Effect)
        → write_call_back s ec k ≡ some (s', es)
        → Step s s'
    calls_all_back :
        (ec : Bool) (k : ℕ) (s' : Session) (es : List Effect)
        → write_all_call_back s ec k ≡ some (s', es)
        → Step s s'

  pub data Reach : Session → Type 0 where
    begin : (recv_pending : Bool) → Reach (new_session recv_pending)
    next : {s t : Session} → Reach s → Step s t → Reach t

  -- A call that returns leaves the flag down.
  abbrev LeavesIdle : Option (Session × List Effect) → Type 0
  LeavesIdle none = Unit {0}
  LeavesIdle (some r) = r.0.send_pending ≡ false

  pushed-LeavesIdle :
      (s : Session) (b : Bool) (call : Effect)
      → s.send_pending ≡ b
      → b ≡ false
      → LeavesIdle (some (if b then (s, []) else (record s { send_pending = false }, call ∷ [])))
  pushed-LeavesIdle s true call e h = cc
  pushed-LeavesIdle s false call e h = refl

  queued-LeavesIdle :
      (s : Session) (buf : List ℕ) (call : List ℕ → Effect)
      → s.send_pending ≡ false
      → LeavesIdle (write_queued p s buf call)
  unfolding write_queued
  queued-LeavesIdle s buf call h = made (new_send_node p buf)
    where
      made :
          (o : Option MsgNode)
          → LeavesIdle (
              ◌>>=◌ {B = Session × List Effect} o λ node.
                let pushed = record s { send_queue = s.send_queue ++ node ∷ [] } in
                some (
                  if pushed.send_pending
                  then (pushed, [])
                  else (record pushed { send_pending = false }, call buf ∷ [])))
      made none = tt
      made (some node) =
          pushed-LeavesIdle (record s { send_queue = s.send_queue ++ node ∷ [] }) s.send_pending
            (call buf) refl h

  next-LeavesIdle :
      (s : Session) (q : List MsgNode) (call : List ℕ → Effect)
      → s.send_pending ≡ false
      → LeavesIdle (write_next s q call)
  unfolding write_next
  next-LeavesIdle s [] call h = tt
  next-LeavesIdle s (n ∷ []) call h = refl
  next-LeavesIdle s (n ∷ m ∷ q) call h = h

  back-LeavesIdle :
      (s : Session) (ec : Bool) (k : ℕ)
      → s.send_pending ≡ false
      → LeavesIdle (write_call_back s ec k)
  unfolding write_call_back
  back-LeavesIdle s true k h = h
  back-LeavesIdle s false k h = next-LeavesIdle s s.send_queue async_write_some h

  all_back-LeavesIdle :
      (s : Session) (ec : Bool) (k : ℕ)
      → s.send_pending ≡ false
      → LeavesIdle (write_all_call_back s ec k)
  unfolding write_all_call_back
  all_back-LeavesIdle s true k h = h
  all_back-LeavesIdle s false k h = next-LeavesIdle s s.send_queue async_send h

  Step-idle : {s t : Session} → Step s t → s.send_pending ≡ false → t.send_pending ≡ false
  unfolding write_to_socket write_all_to_socket
  Step-idle {s} (writes buf t es e) h =
      subst LeavesIdle e (queued-LeavesIdle s buf async_write_some h)
  Step-idle {s} (writes_all buf t es e) h =
      subst LeavesIdle e (queued-LeavesIdle s buf async_send h)
  Step-idle {s} (calls_back ec k t es e) h = subst LeavesIdle e (back-LeavesIdle s ec k h)
  Step-idle {s} (calls_all_back ec k t es e) h = subst LeavesIdle e (all_back-LeavesIdle s ec k h)

  Reach-idle : {s : Session} → Reach s → s.send_pending ≡ false
  unfolding new_session
  Reach-idle (begin b) = refl
  Reach-idle (next r st) = Step-idle st (Reach-idle r)

  -- The node of a text that fits.
  abbrev pub text_node : List ℕ → MsgNode
  text_node buf = record {
    msg = overwrite (p.new_char 1024) 0 buf 0 (length buf);
    total_len = length buf;
    cur_len = 0;
  }

  made_node : (buf : List ℕ) → length buf ≤ 1024 → new_send_node p buf ≡ some (text_node buf)
  unfolding new_send_node
  made_node buf fits =
      let room : 0 + length buf ≤ length (p.new_char 1024) =
        omega (arith, p.length-new_char 1024) in
      rw (memcpy-overwrite (p.new_char 1024) 0 buf 0 (length buf) room (omega arith))

  -- What the queue would write of it.
  abbrev pub queued : Session → List ℕ → Session
  queued s buf = record s { send_queue = s.send_queue ++ text_node buf ∷ []; send_pending = false }

  queued-eq :
      (s : Session) (buf : List ℕ) (call : List ℕ → Effect)
      → s.send_pending ≡ false
      → length buf ≤ 1024
      → write_queued p s buf call ≡ some (queued s buf, call buf ∷ [])
  unfolding write_queued
  queued-eq s buf call h fits = rw (made_node buf fits, h)

  -- The flag is never up: in every state that the calls lead to, a text of at most 1024 bytes is
  -- put into the queue and its write is started at once, however many writes are under way.
  pub write_to_socket-starts :
      (s : Session) (buf : List ℕ)
      → Reach s
      → length buf ≤ 1024
      → (write_to_socket p s buf ≡ some (queued s buf, async_write_some buf ∷ []))
        × (write_all_to_socket p s buf ≡ some (queued s buf, async_send buf ∷ []))
  unfolding write_to_socket write_all_to_socket
  write_to_socket-starts s buf r fits = (
    queued-eq s buf async_write_some (Reach-idle r) fits,
    queued-eq s buf async_send (Reach-idle r) fits,
  )

  rest_of-text : (buf : List ℕ) → length buf ≤ 1024 → rest_of (text_node buf) ≡ buf
  rest_of-text buf fits =
      let n = length buf in
      let room : 0 + n ≤ length (p.new_char 1024) = omega (arith, p.length-new_char 1024) in
      ap (λ k. take k (text_node buf).msg) {x = n - 0} {y = 0 + n} (omega arith)
      ∙ (take-overwrite (p.new_char 1024) 0 buf 0 n room (omega arith)
          ∙ take_all n buf (omega arith))

  -- Two texts that are written one behind the other, and the end of the first write, whatever part
  -- of the first text it has taken: the second text is written a second time, and what was left of
  -- the first is not.
  pub write_call_back-again :
      (s : Session) (a b : List ℕ) (k : ℕ)
      → Reach s
      → s.send_queue ≡ []
      → length a ≤ 1024
      → length b ≤ 1024
      → (write_to_socket p s a ≡ some (queued s a, async_write_some a ∷ []))
        × (write_to_socket p (queued s a) b ≡ some (queued (queued s a) b, async_write_some b ∷ []))
        × (write_call_back (queued (queued s a) b) false k
            ≡ some (queued (record s { send_queue = [] }) b, async_write_some b ∷ []))
  unfolding write_to_socket write_call_back write_next
  write_call_back-again s a b k r empty fits_a fits_b = (
    queued-eq s a async_write_some (Reach-idle r) fits_a,
    queued-eq (queued s a) b async_write_some refl fits_b,
    ap
          (λ q.
            write_next
              (record s {
                send_queue = (q ++ text_node a ∷ []) ++ text_node b ∷ [];
                send_pending = false;
              })
              ((q ++ text_node a ∷ []) ++ text_node b ∷ []) async_write_some)
          empty
        ∙ ap (λ t. some (queued (record s { send_queue = [] }) b, async_write_some t ∷ []))
            (rest_of-text b fits_b),
  )
