-- ===== src/WorkQueue/Crash.antt =====
-- A callback that throws.
use boost_learn.Base.{
  ap, ap₂, zero, suc, ◌<◌, ℕ, ◌≡◌, refl, sym, ◌∙◌, List, [], ◌∷◌, ◌++◌, Option, none, append-nil,
  length, arith, append_assoc,
}
use boost_learn.WorkQueue.{Logic, running, crashed, handle_front, deal_msg}
use boost_learn.WorkQueue.Order.{AreServed, replies_by, replies_of, holding, deal_msg_stop}

module _ {ℓ κ} {Node : Type ℓ} {Reply : Type κ} (dispatch : Node → Option (List Reply)) where
  -- A worker that holds the mutex, over a queue in which the callbacks of some nodes return and that of
  -- the next throws.
  deal_msg-throwing :
      (l : Logic Node Reply) (ns : List Node) (n : Node) (rest : List Node) (fuel : ℕ)
      → AreServed dispatch ns
      → dispatch n ≡ none
      → length ns < fuel
      → deal_msg dispatch fuel (holding dispatch l (ns ++ n ∷ rest)) ≡ record l {
        msg_que = n ∷ rest;
        worker = crashed;
        handled = l.handled ++ ns;
        replies = l.replies ++ replies_of dispatch ns;
      }
  unfolding deal_msg replies_of
  deal_msg-throwing l ns n rest zero a throws h = absurd (omega arith)
  deal_msg-throwing l [] n rest (suc fuel) a throws h =
      ap (λ o. deal_msg dispatch fuel (handle_front (holding dispatch l (n ∷ rest)) n rest o))
        throws
      ∙ (deal_msg_stop dispatch fuel (record (holding dispatch l (n ∷ rest)) { worker = crashed })
            refl
          ∙ ap₂ (λ t u. record l { msg_que = n ∷ rest; worker = crashed; handled = t; replies = u })
              (sym (append-nil l.handled)) (sym (append-nil l.replies)))
  deal_msg-throwing l (m ∷ ns) n rest (suc fuel) ((rs, e), a) throws h =
      let l' : Logic Node Reply = record l {
        handled = l.handled ++ m ∷ [];
        replies = l.replies ++ rs;
      } in
      ap
        (λ o.
          deal_msg dispatch fuel
            (handle_front (holding dispatch l (m ∷ (ns ++ n ∷ rest))) m (ns ++ n ∷ rest) o))
        e
      ∙ (deal_msg-throwing l' ns n rest fuel a throws (omega (arith, h))
          ∙ ap₂ (λ t u. record l { msg_que = n ∷ rest; worker = crashed; handled = t; replies = u })
              (append_assoc l.handled (m ∷ []) ns)
              (append_assoc l.replies rs (replies_of dispatch ns)
                ∙ ap (λ o. l.replies ++ replies_by o (replies_of dispatch ns)) (sym e)))

  pub deal_msg-crashes :
      (l : Logic Node Reply) (ns : List Node) (n : Node) (rest : List Node) (fuel : ℕ)
      → l.worker ≡ running
      → l.msg_que ≡ ns ++ n ∷ rest
      → AreServed dispatch ns
      → dispatch n ≡ none
      → length ns < fuel
      → deal_msg dispatch fuel l ≡ record l {
        msg_que = n ∷ rest;
        worker = crashed;
        handled = l.handled ++ ns;
        replies = l.replies ++ replies_of dispatch ns;
      }
  deal_msg-crashes l ns n rest fuel w q a throws h =
      ap₂ (λ t u. deal_msg dispatch fuel (record l { worker = t; msg_que = u })) w q
      ∙ deal_msg-throwing l ns n rest fuel a throws h
