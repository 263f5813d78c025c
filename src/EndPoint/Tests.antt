-- ===== src/EndPoint/Tests.antt =====
-- The theorems on the loops at concrete inputs.
use boost_learn.Base.{ℕ, [], arith, length, ◌++◌}
use boost_learn.EndPoint.Stream.Trickle.{trickle}
use boost_learn.EndPoint.Stream.{threw, done}
use boost_learn.EndPoint.Programs.{Net, send_data_by_write_some}
use boost_learn.EndPoint.Codes.{HasSent, send_data_by_write_some_lem}

-- Connections come about at once, and nothing else is used.
abbrev net : Net trickle
net = record {
  Address = ℕ;
  make_address = λ text. done 1;
  open_socket = done tt;
  connect = λ st a port. done st;
  bind = λ port. done tt;
  listen = λ n. done tt;
  accept = λ st. done st;
  send = λ st bs. done (length bs, (st.0 ++ bs, st.1));
  write = λ st bs. done (length bs, (st.0 ++ bs, st.1));
  receive = λ st n. threw 2;
  read = λ st n. threw 2;
}

send_data_by_write_some_lem_example :
    HasSent trickle net ([], []) (send_data_by_write_some trickle net 12 ([], []))
send_data_by_write_some_lem_example =
    send_data_by_write_some_lem trickle net 12 ([], []) (omega arith)
