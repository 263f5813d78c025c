-- ===== src/WorkQueue.antt =====
-- The queue between the network threads and the logic thread, which the two logic systems have in
-- common: a mutex, a condition variable, and a worker that calls back for each node. The worker
-- holds the mutex from the moment it wakes until it waits again, so that a post finds it asleep,
-- notified and not yet running, or gone.
pub mod Order
pub mod Crash
pub mod Wakeup
pub mod Awake
use boost_learn.Base.{
  ℕ, zero, suc, ◌≡◌, List, [], ◌∷◌, ◌++◌, Bool, true, false, Option, none, some, length, ◌==◌,
  if◌then◌else◌,
}

pub data Worker : Type 0 where
  asleep : Worker
  notified : Worker
  running : Worker
  finished : Worker
  crashed : Worker

-- `handled` are the nodes that the worker has taken from the queue, `replies` what its callbacks
-- have asked the sessions to send, each oldest first.
pub record Logic {ℓ κ} (Node : Type ℓ) (Reply : Type κ) : Type (ℓ ⊔ κ) where
  pub msg_que : List Node
  pub b_stop : Bool
  pub worker : Worker
  pub handled : List Node
  pub replies : List Reply

-- notify_one
abbrev pub notify : Worker → Worker
notify asleep = notified
notify notified = notified
notify running = running
notify finished = finished
notify crashed = crashed

-- The mutex is free.
abbrev pub IsFree : Worker → Type 0
IsFree asleep = Unit
IsFree notified = Unit
IsFree running = ⊥
IsFree finished = Unit
IsFree crashed = Unit

abbrev pub is_running : Worker → Bool
is_running asleep = false
is_running notified = false
is_running running = true
is_running finished = false
is_running crashed = false

module _ {ℓ κ} {Node : Type ℓ} {Reply : Type κ} where
  -- PostMsgToQue
  unfoldable pub post : Logic Node Reply → Node → Logic Node Reply
  post l n =
      let pushed = l.msg_que ++ n ∷ [] in
      record l {
        msg_que = pushed;
        worker = if length pushed == 1 then notify l.worker else l.worker;
      }

  -- The destructor.
  unfoldable pub stop : Logic Node Reply → Logic Node Reply
  stop l = record l { b_stop = true }

  -- A node whose callback has returned, or that has none.
  abbrev pub take_out : Logic Node Reply → Node → List Node → List Reply → Logic Node Reply
  take_out l n rest rs = record l {
    msg_que = rest;
    handled = l.handled ++ n ∷ [];
    replies = l.replies ++ rs;
  }

  -- A round on the front of the queue. A callback that throws ends the thread, and with it the
  -- program.
  abbrev pub handle_front :
      Logic Node Reply → Node → List Node → Option (List Reply) → Logic Node Reply
  handle_front l n rest none = record l { worker = crashed }
  handle_front l n rest (some rs) = take_out l n rest rs

  -- The thread is started with an empty queue.
  unfoldable pub start : Logic Node Reply
  start = record { msg_que = []; b_stop = false; worker = notified; handled = []; replies = [] }

  module _ (dispatch : Node → Option (List Reply)) where
    -- One round of the loop of `DealMsg`, with the mutex held: sleep, end, or serve the front. The
    -- rounds after a stop serve what is left in the same way.
    unfoldable pub deal_round : Logic Node Reply → List Node → Logic Node Reply
    deal_round l [] = record l { worker = if l.b_stop then finished else asleep }
    deal_round l (n ∷ rest) = handle_front l n rest (dispatch n)

    -- The loop of `DealMsg` from the moment that the worker holds the mutex, on fuel.
    unfoldable pub deal_msg : ℕ → Logic Node Reply → Logic Node Reply
    unfolding deal_round
    deal_msg zero l = l
    deal_msg (suc fuel) l = elim (is_running l.worker) [
      | true ↦ deal_msg fuel (deal_round l l.msg_que)
      | false ↦ l
    ]

    -- What can happen: a post while the mutex is free, the destructor at any time, the worker's
    -- return from `wait`, after a notification or for no reason, and a round of the worker.
    pub data Step (l : Logic Node Reply) : Logic Node Reply → Type (ℓ ⊔ κ) where
      posts : (n : Node) → IsFree l.worker → Step l (post l n)
      stops : Step l (stop l)
      wakes : l.worker ≡ notified → Step l (record l { worker = running })
      wakes_early : l.worker ≡ asleep → Step l (record l { worker = running })
      works : l.worker ≡ running → Step l (deal_round l l.msg_que)

    pub data Reach : Logic Node Reply → Type (ℓ ⊔ κ) where
      begin : Reach start
      next : {l m : Logic Node Reply} → Reach l → Step l m → Reach m
