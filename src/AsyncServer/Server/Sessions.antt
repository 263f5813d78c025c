-- ===== src/AsyncServer/Server/Sessions.antt =====
-- Which sessions the server keeps.
use boost_learn.Base.{
  ℕ, ◌≡◌, refl, ap, ◌∙◌, List, [], ◌∷◌, Bool, true, false, Option, none, some, ◌==◌, if◌then◌else◌,
}
use boost_learn.SessionMap.{find_session}
use boost_learn.SessionMap.Laws.{first_come, find-insert, find-erase}
use boost_learn.AsyncServer.Session.{Session}
use boost_learn.AsyncServer.Session.Sending.{start}
use boost_learn.AsyncServer.Server.{
  Server, clear_server, start_accept, admit, handle_accept, Event, accepts, clears, act, run,
}

-- What one uuid stands for, by itself: the first session that came under it and was not cleared
-- since.
abbrev pub admits : ℕ → Option Session → Session → Option Session
admits u o s = first_come u s.uuid o s

-- The session under the uuid and the session that is awaited, after the events.
unfoldable pub kept : ℕ → Option Session → Session → List Event → Option Session
kept u now awaited [] = now
kept u now awaited (accepts error next ∷ es) =
    kept u (if error then now else admits u now (start awaited).0) next es
kept u now awaited (clears v ∷ es) = kept u (if v == u then none else now) awaited es

act-accepts :
    (v : Server) (awaited : Session) (error : Bool) (next : Session)
    → v.accepting ≡ some awaited
    → act v (accepts error next) ≡ (handle_accept v awaited error next).0
unfolding act
act-accepts v awaited error next h =
    ap (λ o. elim o [ none ↦ v | some s ↦ (handle_accept v s error next).0 ]) h

-- The session that is awaited after the events: the one made at the end of the last accept.
unfoldable pub awaited_after : Session → List Event → Session
awaited_after awaited [] = awaited
awaited_after awaited (accepts error next ∷ es) = awaited_after next es
awaited_after awaited (clears v ∷ es) = awaited_after awaited es

-- The server keeps, under every uuid, what the events on that uuid alone make of it: the first
-- session accepted under it and not cleared since. Afterwards it still accepts: the session that the last
-- accept has made, whether it succeeded or failed, is awaited, or the first one if none has come.
pub find-run :
    (v : Server) (awaited : Session) (es : List Event) (u : ℕ)
    → v.accepting ≡ some awaited
    → (find_session (run v es).sessions u ≡ kept u (find_session v.sessions u) awaited es)
      × ((run v es).accepting ≡ some (awaited_after awaited es))
unfolding run kept awaited_after handle_accept admit start_accept clear_server
find-run v awaited [] u h = (refl, h)
find-run v awaited (accepts true next ∷ es) u h =
    let step = act-accepts v awaited true next h in
    let (found, still) = find-run (start_accept v next) next es u refl in
    (
      ap (λ t. find_session (run t es).sessions u) step ∙ found,
      ap (λ t. (run t es).accepting) step ∙ still,
    )
find-run v awaited (accepts false next ∷ es) u h =
    let admitted = (admit v awaited).0 in
    let step = act-accepts v awaited false next h in
    let (found, still) = find-run (start_accept admitted next) next es u refl in
    (
      ap (λ t. find_session (run t es).sessions u) step
          ∙ (found
              ∙ ap (λ o. kept u o next es)
                  (find-insert v.sessions (start awaited).0.uuid u (start awaited).0)),
      ap (λ t. (run t es).accepting) step ∙ still,
    )
find-run v awaited (clears k ∷ es) u h =
    let (found, still) = find-run (clear_server v k) awaited es u h in
    (found ∙ ap (λ o. kept u o awaited es) (find-erase v.sessions k u), still)
