-- ===== src/AsycApi/Session/Reads.antt =====
-- `readFromSocket` and `readAllFromSocket`, and their callbacks.
use boost_learn.Base.{ℕ, ◌+◌, ◌-◌, ◌<◌, ◌≡◌, refl, [], ◌∷◌, true, false, none, some, arith, lt→ltb}
use boost_learn.Platform.{Platform}
use boost_learn.AsycApi.MsgNode.{new_recv_node}
use boost_learn.AsycApi.Session.{
  Session, async_read_some, async_receive, read_from_socket, read_all_from_socket, read_call_back,
  read_all_call_back,
}

module _ (p : Platform) where
  -- A session whose read has just been started.
  abbrev pub reading : Session → Session
  reading s = record s {
    recv_node = some (record { msg = p.new_char 1024; total_len = 1024; cur_len = 0 });
    recv_pending = true;
  }

  abbrev pub ended : Session → Session
  ended s = record s { recv_node = none; recv_pending = false }

  -- The node of a read that has brought all of the 1024 bytes.
  abbrev pub filled : Session → Session
  filled s = record s {
    recv_node = some (record { msg = p.new_char 1024; total_len = 1024; cur_len = 1024 });
    recv_pending = true;
  }

  -- A session that does not read starts a read of 1024 bytes. When they come at once, the read is
  -- over. When fewer come, the session lets the node go and starts a read of the rest into it, and
  -- the callback of that read, whatever it brings, is through the null pointer.
  pub read_from_socket_lem :
      (s : Session) (k : ℕ)
      → s.recv_pending ≡ false
      → k < 1024
      → (read_from_socket p s ≡ (reading s, async_read_some 1024 ∷ []))
        × (read_call_back (reading s) 1024 ≡ some (ended s, []))
        × (read_call_back (reading s) k ≡ some (ended s, async_read_some (1024 - k) ∷ []))
        × ((m : ℕ) → read_call_back (ended s) m ≡ none)
  unfolding read_from_socket read_call_back new_recv_node
  read_from_socket_lem s k idle part = (
    rw idle,
    refl,
    (let whole : 0 + k ≡ k = omega arith in rw (whole, lt→ltb k 1024 part)),
    λ m. refl,
  )

  -- With `readAllFromSocket` a read that brings all of the 1024 bytes is never over: the session goes
  -- on to be reading, and a further call starts no read. A read that brings fewer ends at the null
  -- pointer, as before.
  pub read_all_from_socket_lem :
      (s : Session) (k : ℕ)
      → s.recv_pending ≡ false
      → k < 1024
      → (read_all_from_socket p s ≡ (reading s, async_receive 1024 ∷ []))
        × (read_all_call_back (reading s) 1024 ≡ some (filled s, []))
        × (read_all_from_socket p (filled s) ≡ (filled s, []))
        × (read_all_call_back (reading s) k ≡ some (ended s, async_receive (1024 - k) ∷ []))
        × ((m : ℕ) → read_all_call_back (ended s) m ≡ none)
  unfolding read_all_from_socket read_all_call_back new_recv_node
  read_all_from_socket_lem s k idle part = (
    rw idle,
    refl,
    refl,
    (let whole : 0 + k ≡ k = omega arith in rw (whole, lt→ltb k 1024 part)),
    λ m. refl,
  )
