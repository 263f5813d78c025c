-- ===== src/WorkQueue/Wakeup.antt =====
-- No wakeup is lost.
use boost_learn.Base.{
  ◌≡◌, ◌≢◌, subst, refl, List, [], ◌∷◌, ◌++◌, Option, none, some, length, arith, ◌==◌,
  if◌then◌else◌,
}
use boost_learn.WorkQueue.{
  Logic, Worker, asleep, notified, running, finished, crashed, notify, post, stop, deal_round,
  handle_front, Step, posts, stops, wakes, wakes_early, works, start, Reach, begin, next,
}

awake : notified ≢ asleep
awake e = cc

after_post {ℓ} :
    {Node : Type ℓ} (w : Worker) (q : List Node) (n : Node)
    → (w ≡ asleep → q ≡ [])
    → (if length (q ++ n ∷ []) == 1 then notify w else w) ≢ asleep
after_post asleep q n a = λ e. absurd (
    awake
      (subst (λ t. (if length (t ++ n ∷ []) == 1 then notified else asleep) ≡ asleep) (a refl) e))
after_post notified q n a = ground arith
after_post running q n a = ground arith
after_post finished q n a = ground arith
after_post crashed q n a = ground arith

module _ {ℓ κ} {Node : Type ℓ} {Reply : Type κ} where
  -- A worker that sleeps has nothing to do.
  abbrev pub IsAwaited : Logic Node Reply → Type ℓ
  IsAwaited l = l.worker ≡ asleep → l.msg_que ≡ []

  post-IsAwaited : (l : Logic Node Reply) (n : Node) → IsAwaited l → IsAwaited (post l n)
  unfolding post
  post-IsAwaited l n a e = absurd (after_post l.worker l.msg_que n a e)

  module _ (dispatch : Node → Option (List Reply)) where
    front-IsAwaited :
        (l : Logic Node Reply) (n : Node) (rest : List Node) (o : Option (List Reply))
        → l.worker ≡ running
        → IsAwaited (handle_front l n rest o)
    front-IsAwaited l n rest none w e = absurd (cc)
    front-IsAwaited l n rest (some rs) w e = absurd (cc)

    round-IsAwaited :
        (l : Logic Node Reply) (q : List Node)
        → l.msg_que ≡ q
        → l.worker ≡ running
        → IsAwaited (deal_round dispatch l q)
    unfolding deal_round
    round-IsAwaited l [] h w e = h
    round-IsAwaited l (n ∷ rest) h w e = front-IsAwaited l n rest (dispatch n) w e

    stop-IsAwaited : (l : Logic Node Reply) → IsAwaited l → IsAwaited (stop l)
    unfolding stop
    stop-IsAwaited l a = a

    pub Step-IsAwaited : {l m : Logic Node Reply} → Step dispatch l m → IsAwaited l → IsAwaited m
    Step-IsAwaited {l} (posts n f) a = post-IsAwaited l n a
    Step-IsAwaited {l} stops a = stop-IsAwaited l a
    Step-IsAwaited (wakes h) a = λ e. absurd (cc)
    Step-IsAwaited (wakes_early h) a = λ e. absurd (cc)
    Step-IsAwaited {l} (works h) a = round-IsAwaited l l.msg_que refl h

    -- Whatever the threads do, while the worker sleeps and has not been notified the queue is empty,
    -- although a post notifies only when it finds the queue empty.
    pub Reach-IsAwaited : {l : Logic Node Reply} → Reach dispatch l → IsAwaited l
    unfolding start
    Reach-IsAwaited begin = λ e. refl
    Reach-IsAwaited (next r st) = Step-IsAwaited st (Reach-IsAwaited r)
