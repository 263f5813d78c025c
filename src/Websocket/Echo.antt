-- ===== src/Websocket/Echo.antt =====
-- A peer that waits for each echo before it sends the next message.
use boost_learn.Base.{
  ℕ, ◌≡◌, ap, ◌∙◌, List, [], ◌∷◌, ◌++◌, true, none, some, append-nil, append_assoc, sym,
}
use boost_learn.Websocket.Link.{Link, Op, receives, completes, run}

-- A connection that reads, and has nothing to write.
abbrev pub idle : ℕ → List ℕ → List (List ℕ) → Link
idle uuid sessions written = record {
  connection = record { uuid = uuid; que_msg = [] };
  sessions = sessions;
  reading = true;
  in_flight = none;
  written = written;
}

unfoldable pub in_turn : List (List ℕ) → List Op
in_turn [] = []
in_turn (m ∷ ms) = receives m ∷ completes ∷ in_turn ms

-- When each echo is taken before the next message comes, every message is echoed once and in order,
-- the connection is idle again behind each, and the map of connections stays as it is.
pub run-in_turn :
    (uuid : ℕ) (sessions : List ℕ) (w ms : List (List ℕ))
    → run (idle uuid sessions w) (in_turn ms) ≡ some (idle uuid sessions (w ++ ms))
unfolding run in_turn
run-in_turn uuid sessions w [] = ap (λ t. some (idle uuid sessions t)) (sym (append-nil w))
run-in_turn uuid sessions w (m ∷ ms) =
    run-in_turn uuid sessions (w ++ m ∷ []) ms
    ∙ ap (λ t. some (idle uuid sessions t)) (append_assoc w (m ∷ []) ms)
