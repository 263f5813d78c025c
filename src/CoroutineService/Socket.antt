-- ===== src/CoroutineService/Socket.antt =====
-- What a coroutine takes from its socket: `co_await asio::async_read(socket, buffer, …)`, which
-- comes back with the buffer full, or throws.
pub mod Bytes
use boost_learn.Base.{ℕ, ◌+◌, ◌≡◌, ◌<◌, List, ◌++◌, Option, none, some, length}

-- `bytes` are those that the peer sends before the connection ends.
pub record Socket : Type 1 where
  pub State : Type 0
  pub bytes : State → List ℕ
  pub async_read : State → ℕ → Option (List ℕ × State)
  pub async_read_whole :
      (st : State) (n : ℕ) (front rest : List ℕ)
      → bytes st ≡ front ++ rest
      → length front ≡ n
      → (st' : State) × (async_read st n ≡ some (front, st')) × (bytes st' ≡ rest)
  pub async_read_short : (st : State) (n : ℕ) → length (bytes st) < n → async_read st n ≡ none
