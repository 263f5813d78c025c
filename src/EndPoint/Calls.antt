-- ===== src/EndPoint/Calls.antt =====
-- endPoint/endPoint/endPoints.cpp: the functions that write to a socket and read from one.
use boost_learn.Base.{
  ℕ, zero, suc, ◌+◌, ◌-◌, ◌==◌, List, none, some, length, take, drop, if◌then◌else◌,
}
use boost_learn.Base.Text.{codes}
use boost_learn.Memory.{memcpy}
use boost_learn.EndPoint.Stream.{Stream, threw, done}

abbrev pub message_size : ℕ
message_size = 7

abbrev pub hello_world : List ℕ
hello_world = codes "hello world"

-- How a function ends, with the state of the socket. `spinning`: the fuel ran out.
pub data Ended (S : Type 0) (A : Type 0) : Type 0 where
  returned : A → S → Ended S A
  thrown : ℕ → S → Ended S A
  spinning : Ended S A
  fault : Ended S A

module _ (sock : Stream) where
  -- while (total_bytes != buf.length()), on fuel
  unfoldable pub write_loop : ℕ → List ℕ → ℕ → sock.State → Ended sock.State Unit
  write_loop zero buf total_bytes st = spinning
  write_loop (suc fuel) buf total_bytes st =
      if total_bytes == length buf
      then returned tt st
      else (elim (sock.write_some st (drop total_bytes buf)) [
        | threw code ↦ thrown code st
        | done r ↦ write_loop fuel buf (total_bytes + r.0) r.1
      ])

  unfoldable pub write_to_socket : ℕ → sock.State → Ended sock.State Unit
  unfolding write_loop
  write_to_socket fuel st = write_loop fuel hello_world 0 st

  -- while (total_bytes != MESSAGE_SIZE)
  unfoldable pub read_loop : ℕ → List ℕ → ℕ → sock.State → Ended sock.State (List ℕ)
  read_loop zero buf total_bytes st = spinning
  read_loop (suc fuel) buf total_bytes st =
      if total_bytes == message_size
      then returned (take total_bytes buf) st
      else (elim (sock.read_some st (message_size - total_bytes)) [
        | threw code ↦ thrown code st
        | done r ↦ elim (memcpy buf total_bytes r.0 0 (length r.0)) [
          | none ↦ fault
          | some filled ↦ read_loop fuel filled (total_bytes + length r.0) r.1
        ]
      ])

  -- `buf` is what the array holds at first.
  unfoldable pub read_from_socket : ℕ → List ℕ → sock.State → Ended sock.State (List ℕ)
  unfolding read_loop
  read_from_socket fuel buf st = read_loop fuel buf 0 st
