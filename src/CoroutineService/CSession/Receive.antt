-- ===== src/CoroutineService/CSession/Receive.antt =====
-- What the coroutine makes of the bytes that the peer sends.
use boost_learn.Base.{
  ℕ, suc, ◌+◌, ◌≤◌, ◌<◌, ◌≡◌, refl, ap, ap₂, ◌∙◌, List, [], ◌∷◌, ◌++◌, some, arith, length, All,
  append_assoc, if◌then◌else◌,
}
use boost_learn.Platform.{Platform, IsShort}
use boost_learn.AsyncServer.MsgNode.{RecvNode, recv_node, clear}
use boost_learn.AsyncServer.MsgNode.Contents.{clear-IsValid}
use boost_learn.AsyncServer.Session.Decode.{Message}
use boost_learn.AsyncServer.Session.Stream.{encode, encode_all, encode_head, not-exceeds}
use boost_learn.Memory.{length-overwrite}
use boost_learn.CoroutineService.Socket.{Socket}
use boost_learn.CoroutineService.CSession.{
  CSession, Effect, post_msg_to_que, clear_server, Outcome, returned, reading, fault, after,
  make_recv, round, start,
}
use boost_learn.CoroutineService.CSession.Round.{
  IsOpen, view, headed, whole, view-whole, round_head, read_body_whole,
}

-- What the server takes: any id, and a body that is not empty.
pub record Fits (m : Message) : Type 0 where
  pub id_fits : IsShort m.msg_id
  pub not_empty : 0 < length m.body
  pub len_fits : length m.body ≤ 2048

abbrev pub views : List RecvNode → List Message
views [] = []
views (r ∷ rs) = view r ∷ views rs

abbrev pub posts : List RecvNode → List Effect
posts [] = []
posts (r ∷ rs) = post_msg_to_que r ∷ posts rs

after_two :
    (r : RecvNode) (es : List Effect) (o : Outcome)
    → after (post_msg_to_que r ∷ []) (after es o) ≡ after (post_msg_to_que r ∷ es) o
after_two r es (returned s fs) = refl
after_two r es (reading s fs) = refl
after_two r es (fault fs) = refl

after_none : (o : Outcome) → o ≡ after [] o
after_none (returned s fs) = refl
after_none (reading s fs) = refl
after_none (fault fs) = refl

module _ (sock : Socket) (p : Platform) where
  pub start-round :
      (fuel : ℕ) (s : CSession) (st : sock.State)
      → IsOpen s
      → start sock p (suc fuel) s st ≡ round sock p (start sock p fuel) s st
  unfolding start
  start-round fuel s st o = rw (o.not_closed)

  headed-IsOpen :
      (s : CSession) (m : Message) → IsOpen s → IsOpen (headed s m.msg_id (length m.body))
  headed-IsOpen s m o =
      let (v, zeroed, same) = clear-IsValid o.head_valid in
      record {
        not_closed = o.not_closed;
        head_valid = omega (
          arith,
          o,
          v,
          zeroed,
          same,
          length-overwrite (clear s.recv_head_node).chars 0 (encode_head m.msg_id (length m.body)) 0
              4 (omega (arith, o, v, same)) (omega arith),
        );
        head_size = same ∙ o.head_size;
      }

  pub start_message :
      (fuel : ℕ) (s : CSession) (st : sock.State) (m : Message) (bs : List ℕ)
      → IsOpen s
      → Fits m
      → sock.bytes st ≡ encode m ++ bs
      → (s' : CSession) × (st' : sock.State) × IsOpen s'
        × (s'.uuid ≡ s.uuid)
        × (sock.bytes st' ≡ bs)
        × (start sock p (suc fuel) s st
            ≡ after (post_msg_to_que (whole p m.msg_id m.body) ∷ []) (start sock p fuel s' st'))
  start_message fuel s st m bs o f e =
      let (st₁, left₁, head) =
        round_head sock p (start sock p fuel) s st m.msg_id (length m.body) (m.body ++ bs) o
          f.id_fits (omega (arith, f)) e in
      let h = headed s m.msg_id (length m.body) in
      let (st₂, left₂, body) =
        read_body_whole sock p (start sock p fuel) h st₁ m bs f.not_empty f.len_fits left₁ in
      let o' = headed-IsOpen s m o in
      (
        record h { recv_msg_node = some (whole p m.msg_id m.body) },
        st₂,
        record { not_closed = o'.not_closed; head_valid = o'.head_valid; head_size = o'.head_size },
        refl,
        left₂,
        start-round fuel s st o
            ∙ (head
                ∙ (ap
                      (λ b.
                        if b
                        then returned h (clear_server s.uuid ∷ [])
                        else make_recv sock (start sock p fuel) h (length m.body)
                            (recv_node p (length m.body) m.msg_id) st₁)
                      (not-exceeds (length m.body) f.len_fits)
                    ∙ body)),
      )

  -- Messages that fit, one behind the other, are posted in order, and the coroutine goes on with the
  -- bytes behind them.
  pub start_messages :
      (fuel : ℕ) (s : CSession) (st : sock.State) (ms : List Message) (bs : List ℕ)
      → IsOpen s
      → All Fits ms
      → sock.bytes st ≡ encode_all ms ++ bs
      → (s' : CSession) × (st' : sock.State) × (rs : List RecvNode) × IsOpen s'
        × (s'.uuid ≡ s.uuid)
        × (sock.bytes st' ≡ bs)
        × (views rs ≡ ms)
        × (start sock p (fuel + length ms) s st ≡ after (posts rs) (start sock p fuel s' st'))
  unfolding encode_all
  start_messages fuel s st [] bs o f e = (
    s,
    st,
    [],
    o,
    refl,
    e,
    refl,
    ap (λ k. start sock p k s st) (omega arith) ∙ after_none (start sock p fuel s st),
  )
  start_messages fuel s st (m ∷ ms) bs o (f, fs) e =
      let (s₁, st₁, o₁, u₁, left₁, eq₁) =
        start_message (fuel + length ms) s st m (encode_all ms ++ bs) o f
          (e ∙ append_assoc (encode m) (encode_all ms) bs) in
      let (s₂, st₂, rs, o₂, u₂, left₂, same, eq₂) = start_messages fuel s₁ st₁ ms bs o₁ fs left₁ in
      (
        s₂,
        st₂,
        whole p m.msg_id m.body ∷ rs,
        o₂,
        u₂ ∙ u₁,
        left₂,
        ap₂ (λ x xs. x ∷ xs) (view-whole p m (omega (arith, f))) same,
        ap (λ k. start sock p k s st) (omega arith)
            ∙ (eq₁
                ∙ (ap (after (post_msg_to_que (whole p m.msg_id m.body) ∷ [])) eq₂
                    ∙ after_two _ (posts rs) _)),
      )
