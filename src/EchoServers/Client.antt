-- ===== src/EchoServers/Client.antt =====
-- What a client makes of the calls of a server, one round of the server's loop after another, and what
-- becomes of the loop.
use boost_learn.Base.{List, [], ◌∷◌, Bool, ℕ}

-- How `read_some` comes back: with bytes, at the end of the stream, or with another error.
pub data Read : Type 0 where
  got : List ℕ → Read
  eof : Read
  failed : Read

-- `throws` is whether the rest of the round throws: the address of the peer, or the write.
pub record Round : Type 0 where
  pub read : Read
  pub throws : Bool

-- `waiting`: in `read_some`. `broken`: the read has written beyond its array.
pub data Ending : Type 0 where
  waiting : Ending
  closed_by_peer : Ending
  threw : Ending
  broken : Ending

-- The bytes of the writes that have ended, and how the loop ends.
pub record Served : Type 0 where
  pub written : List (List ℕ)
  pub ending : Ending

abbrev pub ended : Ending → Served
ended e = record { written = []; ending = e }

abbrev pub after_write : List ℕ → Served → Served
after_write bs s = record { written = bs ∷ s.written; ending = s.ending }
