-- ===== src/HttpServer/Connect.antt =====
-- The life of an http_connect: its socket, its timer, and the callback that it waits for.
use boost_learn.Base.{Bool, true, false}

pub data Socket : Type 0 where
  open_socket : Socket
  shut : Socket
  closed : Socket

pub data Waiting : Type 0 where
  for_request : Waiting
  for_write : Waiting
  for_nothing : Waiting

-- `deadline`: the timer is armed.
pub record Connect : Type 0 where
  pub socket : Socket
  pub deadline : Bool
  pub waiting : Waiting

-- http_connect::start: read_request and check_deadline
unfoldable pub start : Connect
start = record { socket = open_socket; deadline = true; waiting = for_request }

-- The callback of read_request. process_request, where it does not throw, ends with write_response.
unfoldable pub request_read : Connect → Bool → Connect
request_read c true = record c { waiting = for_nothing }
request_read c false = record c { waiting = for_write }

-- socket_.shutdown(shutdown_send, ec), where `ec` is not looked at: it may fail, and leaves the socket as
-- it is then.
abbrev pub shutdown_send : Bool → Socket → Socket
shutdown_send true s = s
shutdown_send false open_socket = shut
shutdown_send false shut = shut
shutdown_send false closed = closed

-- The callback of write_response, which does not look at its error. `ec`: that of the shutdown.
unfoldable pub response_written : Connect → Bool → Connect
response_written c ec = record c {
  socket = shutdown_send ec c.socket;
  deadline = false;
  waiting = for_nothing;
}

-- The callback of check_deadline; a timer that was cancelled calls it with an error.
unfoldable pub deadline_over : Connect → Bool → Connect
deadline_over c true = c
deadline_over c false = record c { socket = closed; deadline = false }
