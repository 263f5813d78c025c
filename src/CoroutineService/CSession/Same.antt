-- ===== src/CoroutineService/CSession/Same.antt =====
-- The coroutine and the callbacks of AsyncServer, on the same bytes.
use boost_learn.Base.{
  suc, ◌+◌, ◌≤◌, ◌<◌, ◌≡◌, refl, sym, ap, ◌∙◌, List, [], ◌∷◌, ◌++◌, false, length, All, ℕ, arith,
  subst,
}
use boost_learn.Platform.{Platform, IsByte}
use boost_learn.AsyncServer.MsgNode.Contents.{contents}
use boost_learn.AsyncServer.Session.{Session, deliver, handle_read}
use boost_learn.AsyncServer.Session.Decode.{Message}
use boost_learn.AsyncServer.Session.Stream.{encode_all, messages}
use boost_learn.AsyncServer.Session.View.{observe, IsReadingHead}
use boost_learn.AsyncServer.Session.Receive.{IsRead, handle_read-encode_all}
use boost_learn.AsyncServer.Session.Posted.{posted_events, posted-messages}
use boost_learn.CoroutineService.Socket.{Socket}
use boost_learn.CoroutineService.CSession.{
  CSession, Effect, post_msg_to_que, clear_server, close_socket, Outcome, returned, reading, fault,
  start,
}
use boost_learn.CoroutineService.CSession.Round.{IsOpen, view}
use boost_learn.CoroutineService.CSession.Receive.{views, posts}
use boost_learn.CoroutineService.CSession.Ends.{start-encode_all}

-- What both servers take: an id of at most 2048, and a body that is not empty.
pub record FitsBoth (m : Message) : Type 0 where
  pub id_fits : m.msg_id ≤ 2048
  pub not_empty : 0 < length m.body
  pub len_fits : length m.body ≤ 2048

-- The messages that the coroutine posts, in order.
abbrev pub posted_effects : List Effect → List Message
posted_effects [] = []
posted_effects (post_msg_to_que r ∷ es) = view r ∷ posted_effects es
posted_effects (clear_server uuid ∷ es) = posted_effects es
posted_effects (close_socket ∷ es) = posted_effects es

abbrev pub posted : Outcome → List Message
posted (returned s es) = posted_effects es
posted (reading s es) = posted_effects es
posted (fault es) = posted_effects es

posted-posts :
    (rs : List _) (u : _)
    → posted_effects (posts rs ++ close_socket ∷ clear_server u ∷ []) ≡ views rs
posted-posts [] u = refl
posted-posts (r ∷ rs) u = ap (λ t. view r ∷ t) (posted-posts rs u)

Fits-async :
    (ms : List Message) → All FitsBoth ms → All boost_learn.AsyncServer.Session.Stream.Fits ms
Fits-async [] h = tt
Fits-async (m ∷ ms) (f, h) =
    (record { id_fits = f.id_fits; len_fits = f.len_fits }, Fits-async ms h)

Fits-coroutine :
    (ms : List Message)
    → All FitsBoth ms
    → All boost_learn.CoroutineService.CSession.Receive.Fits ms
Fits-coroutine [] h = tt
Fits-coroutine (m ∷ ms) (f, h) = (
  record { id_fits = omega (arith, f); not_empty = f.not_empty; len_fits = f.len_fits },
  Fits-coroutine ms h,
)

-- One read of AsyncServer brings messages that both servers take, and fewer than four bytes behind
-- them, to a session that waits for a head; and the peer of a coroutine, which is open, sends the same
-- bytes and ends the connection. Then both post the same messages to their logic threads, in the same
-- order, and these are the ones that were sent.
pub posted_same :
    (p : Platform) (s : Session) (chunk : List ℕ) (sock : Socket) (c : CSession) (st : sock.State)
    (ms : List Message) (tail : List ℕ)
    → IsReadingHead s
    → contents s.recv_head_node ≡ []
    → IsRead chunk
    → All IsByte chunk
    → IsOpen c
    → chunk ≡ encode_all ms ++ tail
    → sock.bytes st ≡ chunk
    → All FitsBoth ms
    → length tail < 4
    → (posted_events
          (observe (handle_read p (suc (length ms)) (deliver s chunk) false (length chunk))).events
        ≡ posted (start sock p (1 + length ms) c st))
      × (posted (start sock p (1 + length ms) c st) ≡ ms)
posted_same p s chunk sock c st ms tail v empty i bytes o e coming fits few =
    let kept : contents s.recv_head_node ++ chunk ≡ chunk = ap (λ t. t ++ chunk) empty in
    let by_callbacks =
      handle_read-encode_all p s chunk ms tail v i (subst (All IsByte) (sym kept) bytes) (kept ∙ e)
        (Fits-async ms fits) few in
    let (c', rs, run, same, shut) =
      start-encode_all sock p c st ms tail o (Fits-coroutine ms fits) few (coming ∙ e) in
    let by_coroutine = ap posted run ∙ (posted-posts rs c.uuid ∙ same) in
    (
      ap (λ r. posted_events r.events) by_callbacks ∙ (posted-messages ms ∙ sym by_coroutine),
      by_coroutine,
    )
