-- ===== src/AsycApi/Tests.antt =====
-- The theorems on the asynchronous session at concrete inputs.
use boost_learn.Base.{ℕ, ◌≡◌, refl, List, [], ◌∷◌, false, none, some, arith, take, drop}
use boost_learn.Platform.LittleEndian.{platform}
use boost_learn.AsycApi.Session.{
  Session, async_write_some, new_session, write_to_socket, write_call_back,
}
use boost_learn.AsycApi.Session.ErrWrite.{Run, write_by, pending_bytes, write_by_lem}
use boost_learn.AsycApi.Session.Queue.{begin, queued, write_call_back-again}

abbrev idle : Session
idle = record {
  nodes = [];
  send_node = none;
  send_queue = [];
  send_pending = false;
  recv_node = none;
  recv_pending = false;
}

abbrev hello : List ℕ
hello = b'h' ∷ b'e' ∷ b'l' ∷ b'l' ∷ b'o' ∷ []

abbrev you : List ℕ
you = b'y' ∷ b'o' ∷ b'u' ∷ []

write_by_lem_example :
    (r : Run) × (write_by platform idle hello (2 ∷ 1 ∷ []) ≡ some r)
    × (r.written ≡ take 3 hello)
    × (pending_bytes r.pending ≡ drop 3 hello)
write_by_lem_example = write_by_lem platform idle hello (2 ∷ 1 ∷ []) (omega arith) (omega arith)

write_call_back-again_example :
    (write_to_socket platform (new_session false) hello
      ≡ some (queued platform (new_session false) hello, async_write_some hello ∷ []))
    × (write_to_socket platform (queued platform (new_session false) hello) you
        ≡ some (
          queued platform (queued platform (new_session false) hello) you,
          async_write_some you ∷ [],
        ))
    × (write_call_back (queued platform (queued platform (new_session false) hello) you) false 2
        ≡ some (queued platform (new_session false) you, async_write_some you ∷ []))
unfolding new_session
write_call_back-again_example =
    write_call_back-again platform (new_session false) hello you 2 (begin false) refl (omega arith)
      (omega arith)
