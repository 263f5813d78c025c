-- ===== src/CoroutineService/CSession/Queue.antt =====
-- What `Send` puts into the queue of a coroutine's session.
use boost_learn.Base.{
  ℕ, suc, ◌≤◌, ◌≡◌, refl, ap, ◌∙◌, List, [], ◌∷◌, ◌++◌, some, arith, ltb, if◌then◌else◌, length,
  take, length-take, le→ltb, lt→ltb, ◌/◌, ◌%◌,
}
use boost_learn.Platform.{Platform, IsShort}
use boost_learn.AsyncServer.MsgNode.{SendNode, ◌>>=◌}
use boost_learn.AsyncServer.MsgNode.Encoding.{sent, send_node-eq, wire, wire-sent}
use boost_learn.AsyncServer.Session.Stream.{encode}
use boost_learn.CoroutineService.CSession.{CSession}
use boost_learn.CoroutineService.CSession.Sending.{Writing, async_write, front, send}

-- A node written only when it is alone in the queue.
abbrev pub first_write : List SendNode → SendNode → List Writing
first_write q n = if ltb 0 (length q) then [] else async_write n ∷ []

front-pushed :
    (s : CSession) (q : List SendNode) (n : SendNode)
    → ◌>>=◌ {B = CSession × List Writing}
        (front (q ++ n ∷ []))
        (λ first. some (s, first_write q first))
      ≡ some (s, first_write q n)
front-pushed s [] n = refl
front-pushed s (x ∷ q) n = rw (lt→ltb 0 (suc (length q)) (omega arith))

module _ (p : Platform) where
  -- While at most 2048 nodes wait, a message of at most 32763 bytes is put behind them as one node,
  -- whose bytes on the wire are the id and the length in network order and the body; its write is
  -- started at once just when no node waits before it.
  pub send_lem :
      (s : CSession) (msg : List ℕ) (len msg_id : ℕ)
      → IsShort msg_id
      → len ≤ 32763
      → len ≤ length msg
      → length s.send_que ≤ 2048
      → (n : SendNode) × (wire n ≡ encode (record { msg_id = msg_id; body = take len msg }))
        × (send p s msg len msg_id
            ≡ some (record s { send_que = s.send_que ++ n ∷ [] }, first_write s.send_que n))
  unfolding send
  send_lem s msg len msg_id short fits has room =
      let n = sent p msg len msg_id short fits has in
      let size : len ≡ length (take len msg) = omega (arith, has, length-take len msg) in
      (
        n,
        wire-sent p msg len msg_id short fits has
            ∙ ap (λ k. msg_id / 256 ∷ msg_id % 256 ∷ k / 256 ∷ k % 256 ∷ take len msg) size,
        rw (le→ltb 2048 (length s.send_que) room, send_node-eq p msg len msg_id short fits has)
            (front-pushed (record s { send_que = s.send_que ++ n ∷ [] }) s.send_que n),
      )
