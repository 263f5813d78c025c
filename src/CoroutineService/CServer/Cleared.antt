-- ===== src/CoroutineService/CServer/Cleared.antt =====
-- A session whose coroutine has ended is not kept.
use boost_learn.Base.{
  ℕ, ◌≡◌, ◌≢◌, refl, sym, ap, ◌∙◌, List, [], ◌∷◌, false, none, some, ==_iff, ne→==, ◌<◌, length,
  subst,
}
use boost_learn.Platform.{Platform}
use boost_learn.CoroutineService.Socket.{Socket}
use boost_learn.CoroutineService.CSession.{
  CSession, Effect, post_msg_to_que, clear_server, close_socket, Outcome, returned, reading, fault,
  start,
}
use boost_learn.SessionMap.{find_session, insert_session, erase_session}
use boost_learn.SessionMap.Laws.{find-erase_self, find-erase_other}
use boost_learn.CoroutineService.CServer.{
  CServer, clear_session, start_accept, handle_accept, perform,
}
use boost_learn.CoroutineService.CSession.Cleared.{ClearsOnly, Clears, Ends, IsRunning, start-Ends}

find-perform_gone :
    (es : List Effect) (v : CServer) (u : ℕ)
    → ClearsOnly u es
    → find_session v.sessions u ≡ none
    → find_session (perform v es).sessions u ≡ none
unfolding perform clear_session
find-perform_gone [] v u only gone = gone
find-perform_gone (post_msg_to_que r ∷ es) v u only gone = find-perform_gone es v u only gone
find-perform_gone (close_socket ∷ es) v u only gone = find-perform_gone es v u only gone
find-perform_gone (clear_server k ∷ es) v u (same, only) gone =
    find-perform_gone es (clear_session v k) u only (
      subst (λ k. find_session (erase_session v.sessions k) u ≡ none) (sym same)
        (find-erase_self v.sessions u))

find-perform_other :
    (es : List Effect) (v : CServer) (u k : ℕ)
    → ClearsOnly u es
    → u ≢ k
    → find_session (perform v es).sessions k ≡ find_session v.sessions k
unfolding perform clear_session
find-perform_other [] v u k only other = refl
find-perform_other (post_msg_to_que r ∷ es) v u k only other =
    find-perform_other es v u k only other
find-perform_other (close_socket ∷ es) v u k only other = find-perform_other es v u k only other
find-perform_other (clear_server w ∷ es) v u k (same, only) other =
    find-perform_other es (clear_session v w) u k only other
    ∙ find-erase_other v.sessions w k (λ e. other (sym same ∙ e))

find-perform :
    (es : List Effect) (v : CServer) (u : ℕ)
    → Clears u es
    → find_session (perform v es).sessions u ≡ none
unfolding perform clear_session
find-perform [] v u h = absurd h
find-perform (post_msg_to_que r ∷ es) v u h = find-perform es v u h
find-perform (close_socket ∷ es) v u h = find-perform es v u h
find-perform (clear_server k ∷ es) v u (same, only) =
    find-perform_gone es (clear_session v k) u only (
      subst (λ k. find_session (erase_session v.sessions k) u ≡ none) (sym same)
        (find-erase_self v.sessions u))

Clears-ClearsOnly : (u : ℕ) (es : List Effect) → Clears u es → ClearsOnly u es
Clears-ClearsOnly u [] h = absurd h
Clears-ClearsOnly u (post_msg_to_que r ∷ es) h = Clears-ClearsOnly u es h
Clears-ClearsOnly u (close_socket ∷ es) h = Clears-ClearsOnly u es h
Clears-ClearsOnly u (clear_server k ∷ es) h = h

-- Behind the coroutine of the session `u`, which `w` keeps: it is not kept any more, and what is kept under
-- `k` is what `v` had.
abbrev pub Leaves : CServer → CServer → ℕ → ℕ → Outcome → Type 0
Leaves v w u k (returned s es) =
    (find_session (perform w es).sessions u ≡ none)
    × (find_session (perform w es).sessions k ≡ find_session v.sessions k)
Leaves v w u k (reading s es) = ⊥
Leaves v w u k (fault es) = Unit

Ends-Leaves :
    (v w : CServer) (u k : ℕ) (o : Outcome)
    → u ≢ k
    → find_session w.sessions k ≡ find_session v.sessions k
    → Ends u o
    → Leaves v w u k o
Ends-Leaves v w u k (returned s es) other same h =
    (find-perform es w u h, find-perform_other es w u k (Clears-ClearsOnly u es h) other ∙ same)
Ends-Leaves v w u k (reading s es) other same h = h
Ends-Leaves v w u k (fault es) other same h = tt

module _ (v : CServer) (s next : CSession) (unknown : find_session v.sessions s.uuid ≡ none) where
  accepted-sessions : (handle_accept v s false next).sessions ≡ (s.uuid, s) ∷ v.sessions
  unfolding handle_accept insert_session start_accept
  accepted-sessions = rw (insert_session, unknown)

  find-accepted : find_session (handle_accept v s false next).sessions s.uuid ≡ some s
  unfolding find_session
  find-accepted =
      ap (λ t. find_session t s.uuid) accepted-sessions ∙ rw ((==_iff s.uuid s.uuid).1 refl)

  find-accepted_other :
      (k : ℕ)
      → s.uuid ≢ k
      → find_session (handle_accept v s false next).sessions k ≡ find_session v.sessions k
  unfolding find_session
  find-accepted_other k other =
      ap (λ t. find_session t k) accepted-sessions ∙ rw (ne→== s.uuid k other)

  -- A new session under a uuid that the server does not know, and a peer that sends any bytes and then
  -- ends the connection. The accepted session is kept; with more fuel than there are bytes its coroutine
  -- ends, but for a fault, and when it has returned, the server does not keep it any more, and keeps
  -- what it kept before under every other uuid.
  pub accepted-Leaves :
      (sock : Socket) (p : Platform) (fuel : ℕ) (st : sock.State) (k : ℕ)
      → IsRunning s
      → length (sock.bytes st) < fuel
      → s.uuid ≢ k
      → (find_session (handle_accept v s false next).sessions s.uuid ≡ some s)
        × Leaves v (handle_accept v s false next) s.uuid k (start sock p fuel s st)
  accepted-Leaves sock p fuel st k running few other = (
    find-accepted,
    Ends-Leaves v (handle_accept v s false next) s.uuid k (start sock p fuel s st) other
        (find-accepted_other k other) (start-Ends sock p fuel s st running few),
  )
