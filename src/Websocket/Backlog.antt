-- ===== src/Websocket/Backlog.antt =====
-- A message that comes before the echo of the one before it has been taken.
use boost_learn.Base.{
  ℕ, suc, ◌≡◌, refl, ap, ◌∙◌, List, [], ◌∷◌, ◌++◌, Bool, true, false, none, some, arith, length,
  ltb, lt→ltb,
}
use boost_learn.Websocket.ConnectionMgr.{rm_connection}
use boost_learn.Websocket.Connection.{async_send}
use boost_learn.Websocket.Link.{Link, Op, receives, breaks_off, completes, fails, act, run, ◌>>=◌}
use boost_learn.Websocket.Echo.{idle}

-- `n` waits in front of the queue, and no write is under way.
abbrev pub stalled : ℕ → List ℕ → Bool → List (List ℕ) → List ℕ → List (List ℕ) → Link
stalled uuid sessions reading written n q = record {
  connection = record { uuid = uuid; que_msg = n ∷ q };
  sessions = sessions;
  reading = reading;
  in_flight = none;
  written = written;
}

-- `m` is being written, and `q` waits behind it.
abbrev pub writing : ℕ → List ℕ → List (List ℕ) → List ℕ → List (List ℕ) → Link
writing uuid sessions written m q = record {
  connection = record { uuid = uuid; que_msg = m ∷ q };
  sessions = sessions;
  reading = true;
  in_flight = some m;
  written = written;
}

pos : {A : Type 0} (q : List A) → ltb 0 (suc (length q)) ≡ true
pos q = lt→ltb 0 (suc (length q)) (omega arith)

receives-stalled :
    (uuid : ℕ) (sessions : List ℕ) (w : List (List ℕ)) (n : List ℕ) (q : List (List ℕ)) (m : List ℕ)
    → act (stalled uuid sessions true w n q) (receives m)
      ≡ some (stalled uuid sessions true w n (q ++ m ∷ []))
unfolding act async_send
receives-stalled uuid sessions w n q m = rw (pos q)

receives-writing :
    (uuid : ℕ) (sessions : List ℕ) (w : List (List ℕ)) (m : List ℕ) (q : List (List ℕ)) (k : List ℕ)
    → act (writing uuid sessions w m q) (receives k)
      ≡ some (writing uuid sessions w m (q ++ k ∷ []))
unfolding act async_send
receives-writing uuid sessions w m q k = rw (pos q)

completes-writing :
    (uuid : ℕ) (sessions : List ℕ) (w : List (List ℕ)) (m n : List ℕ) (q : List (List ℕ))
    → act (writing uuid sessions w m (n ∷ q)) completes
      ≡ some (stalled uuid sessions true (w ++ m ∷ []) n (q ++ n ∷ []))
unfolding act async_send
completes-writing uuid sessions w m n q = rw (pos q)

run-step :
    (l l' : Link) (op : Op) (ops : List Op) → act l op ≡ some l' → run l (op ∷ ops) ≡ run l' ops
unfolding run
run-step l l' op ops e = ap (λ o. o >>= λ k. run k ops) e

-- Nothing is written any more, and nothing is under way.
abbrev pub IsStuck : List (List ℕ) → Link → List Op → Type 0
IsStuck w l ops = (l' : Link) × (run l ops ≡ some l') × (l'.written ≡ w) × (l'.in_flight ≡ none)

run-stalled :
    (uuid : ℕ) (sessions : List ℕ) (r : Bool) (w : List (List ℕ)) (n : List ℕ) (q : List (List ℕ))
    (ops : List Op)
    → IsStuck w (stalled uuid sessions r w n q) ops
unfolding run
run-stalled uuid sessions r w n q [] = (_, refl, refl, refl)
run-stalled uuid sessions true w n q (receives m ∷ ops) =
    let (l', e, h, h') = run-stalled uuid sessions true w n (q ++ m ∷ []) ops in
    (
      l',
      run-step (stalled uuid sessions true w n q) (stalled uuid sessions true w n (q ++ m ∷ []))
            (receives m) ops (receives-stalled uuid sessions w n q m)
          ∙ e,
      h,
      h',
    )
run-stalled uuid sessions false w n q (receives m ∷ ops) = run-stalled uuid sessions false w n q ops
run-stalled uuid sessions true w n q (breaks_off ∷ ops) =
    run-stalled uuid (rm_connection sessions uuid) false w n q ops
run-stalled uuid sessions false w n q (breaks_off ∷ ops) = run-stalled uuid sessions false w n q ops
run-stalled uuid sessions r w n q (completes ∷ ops) = run-stalled uuid sessions r w n q ops
run-stalled uuid sessions r w n q (fails ∷ ops) = run-stalled uuid sessions r w n q ops

unfoldable pub receive_all : List (List ℕ) → List Op → List Op
receive_all [] ops = ops
receive_all (m ∷ ms) ops = receives m ∷ receive_all ms ops

run-writing :
    (uuid : ℕ) (sessions : List ℕ) (w : List (List ℕ)) (m n : List ℕ) (q ms : List (List ℕ))
    (ops : List Op)
    → IsStuck (w ++ m ∷ []) (writing uuid sessions w m (n ∷ q)) (receive_all ms (completes ∷ ops))
unfolding run receive_all
run-writing uuid sessions w m n q [] ops =
    let (l', e, h, h') = run-stalled uuid sessions true (w ++ m ∷ []) n (q ++ n ∷ []) ops in
    (
      l',
      run-step (writing uuid sessions w m (n ∷ q))
            (stalled uuid sessions true (w ++ m ∷ []) n (q ++ n ∷ [])) completes ops
            (completes-writing uuid sessions w m n q)
          ∙ e,
      h,
      h',
    )
run-writing uuid sessions w m n q (k ∷ ms) ops =
    let (l', e, h, h') = run-writing uuid sessions w m n (q ++ k ∷ []) ms ops in
    (
      l',
      run-step (writing uuid sessions w m (n ∷ q)) (writing uuid sessions w m (n ∷ (q ++ k ∷ [])))
            (receives k) (receive_all ms (completes ∷ ops))
            (receives-writing uuid sessions w m (n ∷ q) k)
          ∙ e,
      h,
      h',
    )

-- When a second message comes before the echo of the first has been taken, the first echo is the
-- last: whatever comes, goes or fails afterwards, no other message is written and no write is
-- started, although the messages wait in the queue.
pub backlog_stalls :
    (uuid : ℕ) (sessions : List ℕ) (w : List (List ℕ)) (m n : List ℕ) (ms : List (List ℕ))
    (ops : List Op)
    → IsStuck
        (w ++ m ∷ [])
        (idle uuid sessions w)
        (receives m ∷ receives n ∷ receive_all ms (completes ∷ ops))
unfolding run
backlog_stalls uuid sessions w m n ms ops = run-writing uuid sessions w m n [] ms ops
