-- ===== src/WorkQueue/Order.antt =====
-- First in, first out.
use boost_learn.Base.{
  zero, if◌then◌else◌, append-nil, ap₂, ◌<◌, ℕ, suc, ◌≡◌, refl, sym, ap, ◌∙◌, List, [], ◌∷◌, ◌++◌,
  Bool, true, false, Option, none, some, length, arith, append_assoc, All, ◌<◌,
}
use boost_learn.WorkQueue.{
  Logic, asleep, running, finished, post, stop, deal_round, handle_front, posts, stops, wakes,
  wakes_early, works, start, Step, Reach, begin, next, deal_msg, is_running,
}

abbrev pub replies_by {κ} : {Reply : Type κ} → Option (List Reply) → List Reply → List Reply
replies_by none rest = rest
replies_by (some rs) rest = rs ++ rest

module _ {ℓ κ} {Node : Type ℓ} {Reply : Type κ} where
  -- What has been posted, oldest first.
  abbrev pub history : Logic Node Reply → List Node
  history l = l.handled ++ l.msg_que

  history-front :
      (l : Logic Node Reply) (n : Node) (rest : List Node) (o : Option (List Reply))
      → l.msg_que ≡ n ∷ rest
      → history (handle_front l n rest o) ≡ history l
  history-front l n rest none e = refl
  history-front l n rest (some rs) e =
      append_assoc l.handled (n ∷ []) rest ∙ ap (λ t. l.handled ++ t) (sym e)

  module _ (dispatch : Node → Option (List Reply)) where
    -- What the nodes' callbacks send, in the order of the nodes.
    unfoldable pub replies_of : List Node → List Reply
    replies_of [] = []
    replies_of (n ∷ ns) = replies_by (dispatch n) (replies_of ns)

    -- The nodes that are posted on the way to a state, oldest first.
    unfoldable pub posted : {l : Logic Node Reply} → Reach dispatch l → List Node
    posted begin = []
    posted (next r (posts n f)) = posted r ++ n ∷ []
    posted (next r stops) = posted r
    posted (next r (wakes h)) = posted r
    posted (next r (wakes_early h)) = posted r
    posted (next r (works h)) = posted r

    history-post : (l : Logic Node Reply) (n : Node) → history (post l n) ≡ history l ++ n ∷ []
    unfolding post
    history-post l n = sym (append_assoc l.handled l.msg_que (n ∷ []))

    history-stop : (l : Logic Node Reply) → history (stop l) ≡ history l
    unfolding stop
    history-stop l = refl

    history-round :
        (l : Logic Node Reply) (q : List Node)
        → l.msg_que ≡ q
        → history (deal_round dispatch l q) ≡ history l
    unfolding deal_round
    history-round l [] e = refl
    history-round l (n ∷ rest) e = history-front l n rest (dispatch n) e

    history-Reach_nodes : {l : Logic Node Reply} (r : Reach dispatch l) → history l ≡ posted r
    unfolding posted start
    history-Reach_nodes begin = refl
    history-Reach_nodes (next {l} r (posts n f)) =
        history-post l n ∙ ap (λ t. t ++ n ∷ []) (history-Reach_nodes r)
    history-Reach_nodes (next {l} r stops) = history-stop l ∙ history-Reach_nodes r
    history-Reach_nodes (next r (wakes h)) = history-Reach_nodes r
    history-Reach_nodes (next r (wakes_early h)) = history-Reach_nodes r
    history-Reach_nodes (next {l} r (works h)) =
        history-round l l.msg_que refl ∙ history-Reach_nodes r

    -- No callback of the nodes throws.
    abbrev pub AreServed : List Node → Type κ
    AreServed = All (λ n. (rs : List Reply) × (dispatch n ≡ some rs))

    -- What has been sent is what the callbacks of the nodes taken out have made, and each of them returned.
    abbrev pub AreReplied : Logic Node Reply → Type κ
    AreReplied l = AreServed l.handled × (l.replies ≡ replies_of l.handled)

    replies_of-snoc :
        (ns : List Node) (n : Node) (rs : List Reply)
        → dispatch n ≡ some rs
        → replies_of (ns ++ n ∷ []) ≡ replies_of ns ++ rs
    unfolding replies_of
    replies_of-snoc [] n rs e = rw e (append-nil rs)
    replies_of-snoc (m ∷ ns) n rs e =
        ap (replies_by (dispatch m)) (replies_of-snoc ns n rs e) ∙ by_front (dispatch m)
      where
        by_front :
            (o : Option (List Reply))
            → replies_by o (replies_of ns ++ rs) ≡ replies_by o (replies_of ns) ++ rs
        by_front none = refl
        by_front (some qs) = sym (append_assoc qs (replies_of ns) rs)

    AreServed-snoc :
        (ns : List Node) (n : Node) (rs : List Reply)
        → dispatch n ≡ some rs
        → AreServed ns
        → AreServed (ns ++ n ∷ [])
    AreServed-snoc [] n rs e h = ((rs, e), tt)
    AreServed-snoc (m ∷ ns) n rs e (a, h) = (a, AreServed-snoc ns n rs e h)

    front-AreReplied :
        (l : Logic Node Reply) (n : Node) (rest : List Node) (o : Option (List Reply))
        → dispatch n ≡ o
        → AreReplied l
        → AreReplied (handle_front l n rest o)
    front-AreReplied l n rest none e h = h
    front-AreReplied l n rest (some rs) e (a, h) = (
      AreServed-snoc l.handled n rs e a,
      ap (λ t. t ++ rs) h ∙ sym (replies_of-snoc l.handled n rs e),
    )

    round-AreReplied :
        (l : Logic Node Reply) (q : List Node) → AreReplied l → AreReplied (deal_round dispatch l q)
    unfolding deal_round
    round-AreReplied l [] h = h
    round-AreReplied l (n ∷ rest) h = front-AreReplied l n rest (dispatch n) refl h

    Step-AreReplied : {l m : Logic Node Reply} → Step dispatch l m → AreReplied l → AreReplied m
    unfolding post stop
    Step-AreReplied (posts n f) h = h
    Step-AreReplied stops h = h
    Step-AreReplied (wakes w) h = h
    Step-AreReplied (wakes_early w) h = h
    Step-AreReplied {l} (works w) h = round-AreReplied l l.msg_que h

    Reach-AreReplied : {l : Logic Node Reply} → Reach dispatch l → AreReplied l
    unfolding start replies_of
    Reach-AreReplied begin = (tt, refl)
    Reach-AreReplied (next r s) = Step-AreReplied s (Reach-AreReplied r)

    -- Whatever the threads do: the nodes that were taken out of the queue and those that wait in it are,
    -- one behind the other, the nodes posted, in the order of posting. The callback of each node that was
    -- taken out has returned, and what has been sent is, one behind the other, what these callbacks made,
    -- each once and in that order.
    pub history-Reach :
        {l : Logic Node Reply} (r : Reach dispatch l) → (history l ≡ posted r) × AreReplied l
    history-Reach r = (history-Reach_nodes r, Reach-AreReplied r)

    -- The state after the worker has served the whole queue.
    abbrev pub served : Logic Node Reply → List Node → Logic Node Reply
    served l q = record l {
      msg_que = [];
      worker = if l.b_stop then finished else asleep;
      handled = l.handled ++ q;
      replies = l.replies ++ replies_of q;
    }

    abbrev pub holding : Logic Node Reply → List Node → Logic Node Reply
    holding l q = record l { msg_que = q; worker = running }

    -- A worker that holds the mutex makes a round.
    pub deal_msg_round :
        (fuel : ℕ) (l : Logic Node Reply)
        → l.worker ≡ running
        → deal_msg dispatch (suc fuel) l ≡ deal_msg dispatch fuel (deal_round dispatch l l.msg_que)
    unfolding deal_msg
    deal_msg_round fuel l w = rw w

    pub deal_msg_stop :
        (fuel : ℕ) (l : Logic Node Reply)
        → is_running l.worker ≡ false
        → deal_msg dispatch fuel l ≡ l
    unfolding deal_msg
    deal_msg_stop zero l h = refl
    deal_msg_stop (suc fuel) l h = rw (deal_msg, h)

    not_running : (b : Bool) → is_running (if b then finished else asleep) ≡ false
    not_running true = refl
    not_running false = refl

    deal_msg-holding :
        (l : Logic Node Reply) (q : List Node) (fuel : ℕ)
        → AreServed q
        → length q < fuel
        → deal_msg dispatch fuel (holding l q) ≡ served l q
    unfolding deal_msg replies_of
    deal_msg-holding l [] zero a h = absurd (omega arith)
    deal_msg-holding l [] (suc fuel) a h =
        let ended : Logic Node Reply = record l {
          msg_que = [];
          worker = if l.b_stop then finished else asleep;
        } in
        deal_msg_stop fuel ended (not_running l.b_stop)
        ∙ ap₂ (λ t u. record ended { handled = t; replies = u }) (sym (append-nil l.handled))
            (sym (append-nil l.replies))
    deal_msg-holding l (n ∷ q) zero a h = absurd (omega arith)
    deal_msg-holding l (n ∷ q) (suc fuel) ((rs, e), a) h =
        let l' : Logic Node Reply = record l {
          handled = l.handled ++ n ∷ [];
          replies = l.replies ++ rs;
        } in
        ap (λ o. deal_msg dispatch fuel (handle_front (holding l (n ∷ q)) n q o)) e
        ∙ (deal_msg-holding l' q fuel a (omega (arith, h))
            ∙ ap₂ (λ t u. record (served l []) { handled = t; replies = u })
                (append_assoc l.handled (n ∷ []) q)
                (append_assoc l.replies rs (replies_of q)
                  ∙ ap (λ o. l.replies ++ replies_by o (replies_of q)) (sym e)))

    -- A worker that holds the mutex, over a queue none of whose callbacks throws, serves the whole
    -- queue in order, sends what the callbacks send, and then waits, or ends if it is stopped; one
    -- round for each node and one more are enough.
    pub deal_msg-serves :
        (l : Logic Node Reply) (fuel : ℕ)
        → l.worker ≡ running
        → AreServed l.msg_que
        → length l.msg_que < fuel
        → deal_msg dispatch fuel l ≡ served l l.msg_que
    deal_msg-serves l fuel w a h =
        ap (λ t. deal_msg dispatch fuel (record l { worker = t })) w
        ∙ deal_msg-holding l l.msg_que fuel a h
