-- ===== src/EndPoint/Codes.antt =====
-- The exit codes of the functions.
use boost_learn.Base.{ℕ, ◌<◌, ◌≡◌, List, ◌++◌, length, inl, inr, take}
use boost_learn.EndPoint.Stream.{Stream, done}
use boost_learn.EndPoint.Calls.{
  Ended, returned, thrown, hello_world, write_to_socket, read_from_socket,
}
use boost_learn.EndPoint.Whole.{
  IsWritten, all_written, part_written, IsReceived, received, cut_short, write_to_socket-IsWritten,
  read_from_socket-IsReceived, Result-cases,
}
use boost_learn.EndPoint.Programs.{
  Net, caught, connected, after_call, send_data_by_write_some, read_data_by_read_some,
}

module _ (sock : Stream) (net : Net sock) where
  -- How the connection comes about, or with which code it fails.
  pub data Connects (address : _) (st : sock.State) : Type 0 where
    connects :
        (a : net.Address) (st' : sock.State)
        → net.make_address address ≡ done a
        → net.connect st a 3333 ≡ done st'
        → ((go : sock.State → Ended sock.State ℕ) → connected sock net address st go ≡ go st')
        → Connects address st
    fails :
        (code : ℕ)
        → ((go : sock.State → Ended sock.State ℕ)
            → connected sock net address st go ≡ thrown code st)
        → Connects address st

  Connects-cases : (address : _) (st : sock.State) → Connects address st
  unfolding connected
  Connects-cases address st = elim (Result-cases (net.make_address address)) [
    | inl t ↦ fails t.0 (λ go. rw t.1)
    | inr d ↦ elim (Result-cases net.open_socket) [
      | inl t ↦ fails t.0 (λ go. rw (d.1, t.1))
      | inr o ↦ elim (Result-cases (net.connect st d.0 3333)) [
        | inl t ↦ fails t.0 (λ go. rw (d.1, o.1, t.1))
        | inr c ↦ connects d.0 c.0 d.1 c.1 (λ go. rw (d.1, o.1, c.1))
      ]
    ]
  ]

  -- How send_data_by_write_some ends: it returns a code, and the peer has been sent so much.
  pub data HasSent (st : sock.State) : Ended sock.State ℕ → Type 0 where
    sent_all :
        (a : net.Address) (st' at : sock.State)
        → net.connect st a 3333 ≡ done st'
        → sock.written at ≡ sock.written st' ++ hello_world
        → HasSent st (returned 0 at)
    sent_part :
        (a : net.Address) (st' at : sock.State) (code k : ℕ)
        → net.connect st a 3333 ≡ done st'
        → k < length hello_world
        → sock.written at ≡ sock.written st' ++ take k hello_world
        → HasSent st (returned code at)
    not_connected :
        (code : ℕ)
        → ((go : sock.State → Ended sock.State ℕ)
            → connected sock net "192.168.0.1" st go ≡ thrown code st)
        → HasSent st (returned code st)

  written-HasSent :
      (st st' : sock.State) (a : net.Address) (o : Ended sock.State Unit)
      → net.connect st a 3333 ≡ done st'
      → IsWritten sock (sock.written st') hello_world o
      → HasSent st (caught (after_call o λ u at. returned 0 at))
  written-HasSent st st' a _ c (all_written at e) = sent_all a st' at c e
  written-HasSent st st' a _ c (part_written at code k less e) = sent_part a st' at code k c less e

  -- With more fuel than the text has bytes, the function returns. When it has connected, it has sent
  -- "hello world", without the mark that its own text has, and returns 0, or it has sent a proper part of
  -- that and returns a code. When it has not, it returns the code of the call that failed.
  pub send_data_by_write_some_lem :
      (fuel : ℕ) (st : sock.State)
      → length hello_world < fuel
      → HasSent st (send_data_by_write_some sock net fuel st)
  unfolding send_data_by_write_some
  send_data_by_write_some_lem fuel st more = elim (Connects-cases "192.168.0.1" st) [
    | connects a st' made c go ↦
        rw (go (λ st'. after_call (write_to_socket sock fuel st') λ u at. returned 0 at)) (
          written-HasSent st st' a (write_to_socket sock fuel st') c
            (write_to_socket-IsWritten sock fuel st' more))
    | fails code stop ↦
        rw (stop (λ st'. after_call (write_to_socket sock fuel st') λ u at. returned 0 at))
          (not_connected code stop)
  ]

  -- How read_data_by_read_some ends: with a code, and with so much taken from the peer.
  pub data HasRead (st : sock.State) : Ended sock.State ℕ → Type 0 where
    read_seven :
        (a : net.Address) (st' at : sock.State) (msg : List ℕ)
        → net.connect st a 3333 ≡ done st'
        → length msg ≡ 7
        → sock.bytes st' ≡ msg ++ sock.bytes at
        → HasRead st (returned 0 at)
    no_message : (code : ℕ) (at : sock.State) → HasRead st (returned code at)

  received-HasRead :
      (st st' : sock.State) (a : net.Address) (o : Ended sock.State (List ℕ))
      → net.connect st a 3333 ≡ done st'
      → IsReceived sock (sock.bytes st') o
      → HasRead st (caught (after_call o λ u at. returned 0 at))
  received-HasRead st st' a _ c (received msg at size e) = read_seven a st' at msg c size e
  received-HasRead st st' a _ c (cut_short at code) = no_message code at

  -- With fuel for seven bytes and one more, the function returns: 0 when it has taken seven bytes from the
  -- connection, or a code.
  pub read_data_by_read_some_lem :
      (fuel : ℕ) (buf : List ℕ) (st : sock.State)
      → length buf ≡ 7
      → 7 < fuel
      → HasRead st (read_data_by_read_some sock net fuel buf st)
  unfolding read_data_by_read_some
  read_data_by_read_some_lem fuel buf st size more = elim (Connects-cases "192.168.0.1" st) [
    | connects a st' made c go ↦
        rw (go (λ st'. after_call (read_from_socket sock fuel buf st') λ u at. returned 0 at)) (
          received-HasRead st st' a (read_from_socket sock fuel buf st') c
            (read_from_socket-IsReceived sock fuel buf st' size more))
    | fails code stop ↦
        rw (stop (λ st'. after_call (read_from_socket sock fuel buf st') λ u at. returned 0 at))
          (no_message code st)
  ]
