-- ===== src/WorkQueue/Awake.antt =====
-- A new logic system whose worker wakes behind the posts.
use boost_learn.Base.{
  suc, ◌≡◌, refl, sym, ap, ap₂, ◌∙◌, List, [], ◌∷◌, ◌++◌, Option, arith, length, map, ◌==◌,
  Bool-cases, inl, inr, append-nil, append_assoc, subst,
}
use boost_learn.WorkQueue.{Logic, running, asleep, post, start, deal_msg}
use boost_learn.WorkQueue.Order.{replies_of, replies_by, AreServed, deal_msg-serves}

module _ {ℓ κ} {Node : Type ℓ} {Reply : Type κ} where
  -- Posts one after another.
  unfoldable pub post_each : Logic Node Reply → List Node → Logic Node Reply
  unfolding post
  post_each l [] = l
  post_each l (n ∷ ns) = post_each (post l n) ns

  -- A new logic system with these nodes in its queue.
  abbrev pub holding : List Node → Logic Node Reply
  holding q = record (start {Node = Node} {Reply = Reply}) { msg_que = q }

  post-holding : (q : List Node) (n : Node) → post (holding q) n ≡ holding (q ++ n ∷ [])
  unfolding post start
  post-holding q n = elim (Bool-cases (length (q ++ n ∷ []) == 1)) [
    | inl one ↦ rw one refl
    | inr more ↦ rw more refl
  ]

  post_each-holding : (q ns : List Node) → post_each (holding q) ns ≡ holding (q ++ ns)
  unfolding post_each
  post_each-holding q [] = ap holding (sym (append-nil q))
  post_each-holding q (n ∷ ns) =
      ap (λ l. post_each l ns) (post-holding q n)
      ∙ (post_each-holding (q ++ n ∷ []) ns ∙ ap holding (append_assoc q (n ∷ []) ns))

  -- The worker returns from `wait`.
  abbrev pub woken : Logic Node Reply → Logic Node Reply
  woken l = record l { worker = running }

  module _ {Message : Type 0} (dispatch : Node → Option (List Reply)) (view : Node → Message)
      (by : Message → Option (List Reply)) (same : (n : Node) → dispatch n ≡ by (view n)) where
    replies_of-map : (ns : List Node) → replies_of dispatch ns ≡ replies_of by (map view ns)
    unfolding replies_of
    replies_of-map [] = refl
    replies_of-map (n ∷ ns) = ap₂ (λ o rs. replies_by o rs) (same n) (replies_of-map ns)

    AreServed-map : (ns : List Node) → AreServed by (map view ns) → AreServed dispatch ns
    AreServed-map [] h = tt
    AreServed-map (n ∷ ns) ((rs, e), h) = ((rs, same n ∙ e), AreServed-map ns h)

    -- When what a node is answered with is a function of what is seen of it, and no callback throws, the
    -- worker answers what is seen of the nodes, in order, and then waits.
    pub woken-serves :
        (ns : List Node) (ms : List Message)
        → map view ns ≡ ms
        → AreServed by ms
        → deal_msg dispatch (suc (length ns)) (woken (post_each start ns))
          ≡ record (start {Node = Node} {Reply = Reply}) {
            worker = asleep;
            handled = ns;
            replies = replies_of by ms;
          }
    unfolding start
    woken-serves ns ms e h =
        ap {A = Logic Node Reply} (λ l. deal_msg dispatch (suc (length ns)) (woken l))
          (post_each-holding [] ns)
        ∙ (deal_msg-serves dispatch (woken (holding ns)) (suc (length ns)) refl
              (AreServed-map ns (subst (AreServed by) (sym e) h)) (omega arith)
            ∙ ap {A = List Reply}
                (λ rs. record (start {Node = Node} {Reply = Reply}) {
                  worker = asleep;
                  handled = ns;
                  replies = rs;
                })
                (replies_of-map ns ∙ ap (replies_of by) e))
