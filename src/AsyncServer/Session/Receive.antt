-- ===== src/AsyncServer/Session/Receive.antt =====
-- `Session::handle_read` as the socket calls it: the bytes of one read lie at the front of `_data`.
use boost_learn.Base.{
  ℕ, suc, ◌≤◌, ◌<◌, ◌≡◌, refl, sym, ap, ◌∙◌, subst, ◌≢◌, List, ◌++◌, inl, inr, Bool, true, false,
  arith, length, drop, window, window-append, length-append, length-drop, All,
}
use boost_learn.Platform.{Platform, IsByte}
use boost_learn.AsyncServer.MsgNode.{RecvNode}
use boost_learn.AsyncServer.MsgNode.Contents.{contents}
use boost_learn.AsyncServer.Session.{
  Session, Effect, Outcome, returned, spinning, fault, handle_read, deliver,
}
use boost_learn.AsyncServer.Session.Decode.{
  Message, head, broken, busy, waiting, with_events, decode,
}
use boost_learn.AsyncServer.Session.Stream.{
  encode_all, messages, Fits, decode-encode_all, decode-ne-busy,
}
use boost_learn.AsyncServer.Session.View.{observe, IsReadingHead}
use boost_learn.AsyncServer.Session.Framing.{read_loop_refines}
use boost_learn.AsyncServer.Session.Rest.{IsReadingBody}
use boost_learn.AsyncServer.Session.Invariant.{IsOpen, Keeps, MeetsNegative, read_loop-Keeps}

-- A read brings at least a byte, and no more than it was given room for.
pub record IsRead (chunk : List ℕ) : Type 0 where
  pub some_come : 0 < length chunk
  pub room : length chunk ≤ 2048

module _ (s : Session) (chunk : List ℕ) where
  pub length-deliver :
      2048 ≤ length s.buffer
      → length chunk ≤ 2048
      → (2048 ≤ length (deliver s chunk).buffer) × (length chunk ≤ length (deliver s chunk).buffer)
  length-deliver big h = omega (
    arith,
    length-append chunk (drop (length chunk) s.buffer),
    length-drop (length chunk) s.buffer,
  )

  pub window-deliver : window (deliver s chunk).buffer 0 (length chunk) ≡ chunk
  window-deliver = window-append chunk (drop (length chunk) s.buffer)

  pub deliver-IsReadingHead :
      IsReadingHead s → length chunk ≤ 2048 → IsReadingHead (deliver s chunk)
  deliver-IsReadingHead v h = record {
    at_head = v.at_head;
    head_valid = v.head_valid;
    head_size = v.head_size;
    head_open = v.head_open;
    array = (length-deliver v.array h).0;
  }

  pub deliver-IsReadingBody :
      (r : RecvNode) → IsReadingBody s r → length chunk ≤ 2048 → IsReadingBody (deliver s chunk) r
  deliver-IsReadingBody r v h = record {
    at_body = v.at_body;
    node_is = v.node_is;
    node_valid = v.node_valid;
    array = (length-deliver v.array h).0;
  }

-- Between messages, a call of `handle_read` reports exactly what the decoder of the wire format
-- reports of the head's bytes that were kept and the bytes that came, for any fuel: the messages
-- posted, in order, then the next read or the removal of the session, and what is held back.
pub handle_read_refines :
    (p : Platform) (fuel : ℕ) (s : Session) (chunk : List ℕ)
    → IsReadingHead s
    → IsRead chunk
    → All IsByte (contents s.recv_head_node ++ chunk)
    → observe (handle_read p fuel (deliver s chunk) false (length chunk))
      ≡ decode s.uuid fuel (contents s.recv_head_node ++ chunk)
unfolding handle_read
handle_read_refines p fuel s chunk v i bytes =
    let w = ap (λ t. contents s.recv_head_node ++ t) (window-deliver s chunk) in
    read_loop_refines p s.uuid fuel (deliver s chunk) 0 (length chunk) refl
      (deliver-IsReadingHead s chunk v i.room) i.some_come
      (omega (arith, length-deliver s chunk v.array i.room)) (subst (All IsByte) (sym w) bytes)
    ∙ ap (decode s.uuid fuel) w

returned_of :
    (o : Outcome)
    → (observe o).pending ≢ busy
    → (observe o).pending ≢ broken
    → (s : Session) × (es : List Effect) × (o ≡ returned s es)
returned_of (returned s es) h k = (s, es, refl)
returned_of (spinning s es) h k = absurd (h refl)
returned_of (fault es) h k = absurd (k refl)

-- Between messages, with more fuel than there are bytes to decode, a call returns, unless the bytes
-- hold a head with a negative length (which the decoder calls broken).
pub handle_read_returns :
    (p : Platform) (fuel : ℕ) (s : Session) (chunk : List ℕ)
    → IsReadingHead s
    → IsRead chunk
    → All IsByte (contents s.recv_head_node ++ chunk)
    → length (contents s.recv_head_node ++ chunk) < fuel
    → (decode s.uuid fuel (contents s.recv_head_node ++ chunk)).pending ≢ broken
    → (s' : Session) × (es : List Effect) × (handle_read p fuel
          (deliver s chunk)
          false
          (length chunk)
        ≡ returned s' es)
handle_read_returns p fuel s chunk v i bytes enough sound =
    let e = ap (λ t. t.pending) (handle_read_refines p fuel s chunk v i bytes) in
    returned_of (handle_read p fuel (deliver s chunk) false (length chunk))
      (λ h. decode-ne-busy s.uuid fuel _ enough (sym e ∙ h)) (λ h. sound (sym e ∙ h))

-- If the head's bytes that were kept and the bytes that came are whole messages that fit, with
-- fewer than four bytes behind them, then the messages are posted in order and nothing else, the
-- next read is armed, and the bytes behind them are kept.
pub handle_read-encode_all :
    (p : Platform) (s : Session) (chunk : List ℕ) (ms : List Message) (tail : List ℕ)
    → IsReadingHead s
    → IsRead chunk
    → All IsByte (contents s.recv_head_node ++ chunk)
    → contents s.recv_head_node ++ chunk ≡ encode_all ms ++ tail
    → All Fits ms
    → length tail < 4
    → observe (handle_read p (suc (length ms)) (deliver s chunk) false (length chunk))
      ≡ with_events (messages ms) (waiting (head tail))
handle_read-encode_all p s chunk ms tail v i bytes e fits few =
    handle_read_refines p (suc (length ms)) s chunk v i bytes
    ∙ (ap (decode s.uuid (suc (length ms))) e ∙ decode-encode_all s.uuid ms tail fits few)

-- Every call on an open session, however many bytes it is given, leaves it open: its nodes keep
-- the room that they claim, and it reads a head of which bytes are missing, or a body. The one way
-- for a call to fault is a head of negative length: there is then a round of the call, behind rounds
-- that all went on to the next, in which such a head is completed.
pub handle_read-Keeps :
    (p : Platform) (fuel : ℕ) (s : Session) (ec : Bool) (chunk : List ℕ)
    → IsOpen s
    → length chunk ≤ 2048
    → Keeps
        (MeetsNegative p (deliver s chunk) 0 (length chunk))
        (handle_read p fuel (deliver s chunk) ec (length chunk))
unfolding handle_read
handle_read-Keeps p fuel s true chunk (inl v) h = inl (deliver-IsReadingHead s chunk v h)
handle_read-Keeps p fuel s true chunk (inr (r, v)) h = inr (r, deliver-IsReadingBody s chunk r v h)
handle_read-Keeps p fuel s false chunk (inl v) h =
    read_loop-Keeps p fuel (deliver s chunk) 0 (length chunk)
      (inl (deliver-IsReadingHead s chunk v h)) (omega (arith, length-deliver s chunk v.array h))
handle_read-Keeps p fuel s false chunk (inr (r, v)) h =
    read_loop-Keeps p fuel (deliver s chunk) 0 (length chunk)
      (inr (r, deliver-IsReadingBody s chunk r v h))
      (omega (arith, length-deliver s chunk v.array h))
