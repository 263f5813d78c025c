-- ===== src/ProtobufServer/Session/Frames.antt =====
-- Messages one behind the other, and the end of a round.
use boost_learn.Base.{
  ℕ, suc, ◌+◌, ◌≤◌, ◌<◌, ◌≡◌, refl, ◌∙◌, List, [], ◌∷◌, ◌++◌, arith, length, window, lt→ltb, lt→leb,
  append_assoc,
}
use boost_learn.Memory.{memset_zero}
use boost_learn.AsyncServer.MsgNode.{MsgNode}
use boost_learn.AsyncServer.MsgNode.Encoding.{network_bytes}
use boost_learn.ProtobufServer.Message.{MsgData, reply}
use boost_learn.ProtobufServer.MsgNode.Encoding.{frame}
use boost_learn.ProtobufServer.Session.{
  Session, Effect, async_write, async_read_some, next_round, wait_for_more, follow, Outcome,
  returned, after,
}
use boost_learn.ProtobufServer.Session.Whole.{first_write, window-front}

unfoldable pub frames : List (List ℕ) → List ℕ
frames [] = []
frames (m ∷ ms) = frame m ++ frames ms

-- A body of at most 2048 bytes whose answer is one that a node can hold.
abbrev pub IsServed : MsgData → List ℕ → Type 0
IsServed proto m = (length m ≤ 2048) × (length (reply proto m) < 32768)

-- What is written at once: the first answer, when nothing waits before it.
abbrev pub writes : List MsgNode → List MsgNode → List Effect
writes [] [] = []
writes [] (r ∷ rs) = async_write r ∷ []
writes (x ∷ q) rs = []

pub first_write-writes : (q rs : List MsgNode) (r : MsgNode) → first_write q r ≡ writes q (r ∷ rs)
first_write-writes [] rs r = refl
first_write-writes (x ∷ q) rs r = rw (lt→ltb 0 (suc (length q)) (omega arith))

pub writes-behind : (q rs : List MsgNode) (r : MsgNode) → writes (q ++ r ∷ []) rs ≡ []
writes-behind [] rs r = refl
writes-behind (x ∷ q) rs r = refl

-- A window that starts with a message is not empty.
pub window-frame_positive :
    (buffer : List ℕ) (c n : ℕ) (m bs : List ℕ)
    → c + n ≤ length buffer
    → window buffer c n ≡ frame m ++ bs
    → 0 < n
window-frame_positive buffer c n m bs has e = omega (
  arith,
  (window-front buffer (network_bytes (length m)) (m ++ bs) c n has
      (e ∙ append_assoc (network_bytes (length m)) m bs)).2,
)

pub follow-next_end :
    (loop : Session → ℕ → ℕ → Outcome) (s : Session) (c : ℕ) (es : List Effect)
    → follow loop (next_round s c 0 es)
      ≡ returned (record s { buffer = memset_zero s.buffer 2048 }) (es ++ async_read_some ∷ [])
unfolding next_round wait_for_more follow
follow-next_end loop s c es = refl

pub follow-next_more :
    (loop : Session → ℕ → ℕ → Outcome) (s : Session) (c n : ℕ) (es : List Effect)
    → 0 < n
    → follow loop (next_round s c n es) ≡ after es (loop s c n)
unfolding next_round follow
follow-next_more loop s c n es h = rw (lt→leb n 0 h)
