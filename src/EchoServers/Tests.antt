-- ===== src/EchoServers/Tests.antt =====
-- The theorem on the echo servers at concrete inputs.
use boost_learn.Base.{◌≡◌, refl, some, ℕ, List, [], ◌∷◌, false, arith, replicate, length-replicate}
use boost_learn.EchoServers.Client.{got, eof, Round}
use boost_learn.EchoServers.SyncServer.{session}
use boost_learn.EchoServers.Coroutine.{echo}
use boost_learn.Memory.{memcpy, memset_zero}
use boost_learn.CoroutineService.Socket.Bytes.{received}
use boost_learn.EchoServers.TestClient.{sent, strlen, read_reply}
use boost_learn.EchoServers.Exchange.{joined, line_echoed}
use boost_learn.EchoServers.Same.{Agrees, echoed, session-echo}

abbrev rounds : List Round
rounds =
    record { read = got (b'h' ∷ b'i' ∷ []); throws = false }
    ∷ record { read = got (b'y' ∷ []); throws = false }
    ∷ record { read = eof; throws = false }
    ∷ []

session-echo_example : Agrees (session (replicate 1024 205) rounds) (echo rounds) (echoed rounds)
session-echo_example =
    session-echo (replicate 1024 205) rounds (length-replicate {A = ℕ} 1024 205)
      (omega arith, (omega arith, (tt, tt)))

-- "hi", its terminator, and what was behind it.
abbrev line : List ℕ
line = b'h' ∷ b'i' ∷ 0 ∷ 205 ∷ []

line_echoed_example :
    ((st' : List ℕ) × (read_reply received line (b'h' ∷ b'i' ∷ 1 ∷ [])
        ≡ some (b'h' ∷ b'i' ∷ [], st'))
      × (st' ≡ 1 ∷ []))
    × ((st' : List ℕ) × (read_reply received line (b'h' ∷ b'i' ∷ 1 ∷ [])
          ≡ some (b'h' ∷ b'i' ∷ [], st'))
        × (st' ≡ 1 ∷ []))
unfolding strlen sent joined session echo memcpy memset_zero
line_echoed_example =
    line_echoed received line (replicate 1024 205) (1 ∷ []) ((b'h' ∷ []) ∷ (b'i' ∷ []) ∷ [])
      (b'h' ∷ b'i' ∷ 1 ∷ []) (b'h' ∷ b'i' ∷ 1 ∷ []) (omega arith)
      (length-replicate {A = ℕ} 1024 205) refl (omega arith, (omega arith, tt)) refl refl
