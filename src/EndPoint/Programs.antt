-- ===== src/EndPoint/Programs.antt =====
-- endPoint/endPoint/endPoints.cpp: the functions that open a connection, use it, and return an exit
-- code. The socket's state stands for the connection before it is made, too.
use Prim.Native.String.{String}
use boost_learn.Base.{ℕ, ◌==◌, List, length, if◌then◌else◌, leb}
use boost_learn.Base.Text.{codes}
use boost_learn.EndPoint.Stream.{Stream, Result, threw, done}
use boost_learn.EndPoint.Calls.{
  Ended, returned, thrown, spinning, fault, write_to_socket, read_from_socket, message_size,
}

-- What the functions take from Boost.Asio besides the Stream. A call that is given an error_code sets it
-- where the other form throws.
pub record Net (sock : Stream) : Type 1 where
  pub Address : Type 0
  pub make_address : String → Result Address
  -- the constructors of a socket and of an acceptor with a protocol, which open it
  pub open_socket : Result {0} Unit
  pub connect : sock.State → Address → ℕ → Result sock.State
  pub bind : ℕ → Result {0} Unit
  pub listen : ℕ → Result {0} Unit
  pub accept : sock.State → Result sock.State
  pub send : sock.State → List ℕ → Result (ℕ × sock.State)
  pub write : sock.State → List ℕ → Result (ℕ × sock.State)
  pub receive : sock.State → ℕ → Result (List ℕ × sock.State)
  pub read : sock.State → ℕ → Result (List ℕ × sock.State)

-- ec.value()
abbrev pub value_of {ℓ} : {A : Type ℓ} → Result A → ℕ
value_of (threw code) = code
value_of (done a) = 0

-- What follows a call, and an exception that goes through.
abbrev pub call {ℓ} : {A : Type ℓ} {S B : Type 0} → Result A → S → (A → Ended S B) → Ended S B
call (threw code) st go = thrown code st
call (done a) st go = go a

abbrev pub after_call : {S A B : Type 0} → Ended S A → (A → S → Ended S B) → Ended S B
after_call (returned a st) go = go a st
after_call (thrown code st) go = thrown code st
after_call spinning go = spinning
after_call fault go = fault

-- catch (system::system_error& e) { return e.code().value(); }
abbrev pub caught : {S : Type 0} → Ended S ℕ → Ended S ℕ
caught (returned n st) = returned n st
caught (thrown code st) = returned code st
caught spinning = spinning
caught fault = fault

-- The buffer of the three functions that send.
abbrev pub hello_mark : List ℕ
hello_mark = codes "hello world!"

module _ (sock : Stream) (net : Net sock) where
  unfoldable pub client_end_point : ℕ
  client_end_point = let ec = value_of (net.make_address "127.4.8.1") in if ec == 0 then 0 else ec

  -- The constructor of the acceptor is outside every `try`.
  unfoldable pub bind_acceptor_socket : sock.State → Ended sock.State ℕ
  bind_acceptor_socket st =
      call net.open_socket st
        λ u. let ec = value_of (net.bind 3333) in if ec == 0 then returned 0 st else returned ec st

  -- An address, a socket, and its connection, which the functions below begin with.
  unfoldable pub connected :
      String → sock.State → (sock.State → Ended sock.State ℕ) → Ended sock.State ℕ
  connected raw_ip_address st go =
      call (net.make_address raw_ip_address) st
        λ ep. call net.open_socket st λ u. call (net.connect st ep 3333) st go

  unfoldable pub connect_to_end : sock.State → Ended sock.State ℕ
  unfolding connected
  connect_to_end st = caught (connected "192.168.1.124" st λ st'. returned 0 st')

  unfoldable pub accept_new_connection : sock.State → Ended sock.State ℕ
  accept_new_connection st = caught (
      call net.open_socket st λ u.
        call (net.bind 3333) st
          λ b. call (net.listen 30) st λ l. call (net.accept st) st λ st'. returned 0 st')

  -- The text "hello world!" is not what write_to_socket sends.
  unfoldable pub send_data_by_write_some : ℕ → sock.State → Ended sock.State ℕ
  unfolding connected
  send_data_by_write_some fuel st = caught (
      connected "192.168.0.1" st
        λ st'. after_call (write_to_socket sock fuel st') λ u st''. returned 0 st'')

  unfoldable pub send_data_by_send : sock.State → Ended sock.State ℕ
  unfolding connected
  send_data_by_send st = caught (
      connected "192.168.0.1" st λ st'.
        call (net.send st' hello_mark) st'
          λ r. if leb r.0 0 then returned 0 r.1 else returned 0 r.1)

  unfoldable pub send_data_by_write : sock.State → Ended sock.State ℕ
  unfolding connected
  send_data_by_write st = caught (
      connected "192.168.0.1" st λ st'.
        call (net.write st' hello_mark) st'
          λ r. if leb r.0 0 then returned 0 r.1 else returned 0 r.1)

  -- The first of the three functions with this name. `buf` is what the array of read_from_socket holds.
  unfoldable pub read_data_by_read_some : ℕ → List ℕ → sock.State → Ended sock.State ℕ
  unfolding connected
  read_data_by_read_some fuel buf st = caught (
      connected "192.168.0.1" st
        λ st'. after_call (read_from_socket sock fuel buf st') λ msg st''. returned 0 st'')

  -- The second one, which calls `receive`.
  unfoldable pub read_data_by_receive : sock.State → Ended sock.State ℕ
  unfolding connected
  read_data_by_receive st = caught (
      connected "192.168.0.1" st λ st'.
        call (net.receive st' message_size) st'
          λ r. if leb (length r.0) 0 then returned 0 r.1 else returned 0 r.1)

  -- The third one, which calls `asio::read`.
  unfoldable pub read_data_by_read : sock.State → Ended sock.State ℕ
  unfolding connected
  read_data_by_read st = caught (
      connected "192.168.0.1" st λ st'.
        call (net.read st' message_size) st'
          λ r. if leb (length r.0) 0 then returned 0 r.1 else returned 0 r.1)
